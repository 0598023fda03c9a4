-- ===== src/Pipe/Window.antt =====
-- The bytes that a pipe holds, oldest first, as a queue of at most `pipesize` bytes. The counters
-- `nread` and `nwrite` wrap at 2^32, which `pipesize` divides.
use cs.Base.{
  ◌∙◌, ℕ, zero, suc, ◌+◌, ◌-◌, ◌%◌, ◌^◌, ◌≤◌, ◌<◌, ◌≡◌, refl, ap, ap₂, sym, true, false, List, [],
  ◌∷◌, ◌++◌, arith, length, get_or, set, length-set, get_or-set_self, get_or-set_ne,
}
use cs.Pipe.{acquire, release, Pipe, pipesize, add32, full, empty, put, front, advance}

module _ (bs : List ℕ) where
  abbrev pub window : ℕ → ℕ → List ℕ
  window r zero = []
  window r (suc n) = get_or bs (r % pipesize) 0 ∷ window (add32 r 1) n

  length-window : (r n : ℕ) → length (window r n) ≡ n
  length-window r zero = refl
  length-window r (suc n) = ap suc (length-window (add32 r 1) n)

  window_of_pos :
      (r n : ℕ) → 0 < n → window r n ≡ get_or bs (r % pipesize) 0 ∷ window (add32 r 1) (n - 1)
  window_of_pos r zero h = elim h [ ]
  window_of_pos r (suc n) h = ap (λ k. window r (suc k)) (omega arith)

-- `nwrite - nread`, as `uint`
abbrev pub held : Pipe → ℕ
held p = (p.nwrite + 2 ^ 32 - p.nread) % 2 ^ 32

abbrev pub contents : Pipe → List ℕ
contents p = window p.bytes p.nread (held p)

pub record IsValid (p : Pipe) : Type 0 where
  pub size : length p.bytes ≡ pipesize
  pub read_fits : p.nread < 2 ^ 32
  pub write_fits : p.nwrite < 2 ^ 32
  pub bounded : held p ≤ pipesize

pub length-contents : (p : Pipe) → length (contents p) ≡ held p
length-contents p = length-window p.bytes p.nread (held p)

-- `full` and `empty` read the counters; they say how many bytes the pipe holds.
pub full_iff : {p : Pipe} → IsValid p → full p ≡ true → held p ≡ pipesize
full_iff {p} v h = ground arith

pub not_full : {p : Pipe} → IsValid p → full p ≡ false → held p < pipesize
not_full {p} v h = ground arith

pub empty_held : {p : Pipe} → IsValid p → empty p ≡ true → held p ≡ 0
empty_held {p} v h = ground arith

pub not_empty : {p : Pipe} → IsValid p → empty p ≡ false → 0 < held p
not_empty {p} v h = ground arith

window-set :
    (bs : List ℕ) (x n r i : ℕ)
    → length bs ≡ pipesize
    → n < pipesize
    → i ≡ (r + n) % pipesize
    → window (set bs i x) r (suc n) ≡ window bs r n ++ (x ∷ [])
window-set bs x zero r i hs hn e =
    ap₂ ◌∷◌
      (ap (λ k. get_or (set bs i x) k 0) (omega arith) ∙ get_or-set_self bs i x 0 (omega arith))
      refl
window-set bs x (suc n) r i hs hn e =
    ap₂ ◌∷◌ (get_or-set_ne bs i (r % pipesize) x 0 (omega arith))
      (window-set bs x n (add32 r 1) i hs (omega arith) (omega arith))

pub held-put : {p : Pipe} (b : ℕ) → IsValid p → full p ≡ false → held (put p b) ≡ suc (held p)
held-put {p} b v h = omega (arith, not_full v h)

held-advance : {p : Pipe} → IsValid p → empty p ≡ false → held (advance p) ≡ held p - 1
held-advance {p} v h = omega (arith, not_empty v h)

index_of_held : {p : Pipe} → IsValid p → p.nwrite % pipesize ≡ (p.nread + held p) % pipesize
index_of_held {p} v = omega arith

-- A byte put in a pipe that is not full joins the end of the queue.
pub contents-put :
    {p : Pipe} (b : ℕ)
    → IsValid p
    → full p ≡ false
    → IsValid (put p b) × (contents (put p b) ≡ contents p ++ (b ∷ []))
contents-put {p} b v h = (
  record {
    size = length-set p.bytes (p.nwrite % pipesize) b ∙ v.size;
    read_fits = v.read_fits;
    write_fits = omega arith;
    bounded = omega (arith, held-put b v h, not_full v h);
  },
  ap (window (put p b).bytes p.nread) (held-put b v h)
      ∙ window-set p.bytes b (held p) p.nread (p.nwrite % pipesize) v.size (not_full v h)
          (index_of_held v),
)

-- The front byte of a pipe that is not empty is the head of the queue, and `advance` drops it.
pub contents-advance :
    {p : Pipe}
    → IsValid p
    → empty p ≡ false
    → IsValid (advance p) × (contents p ≡ front p ∷ contents (advance p))
contents-advance {p} v h = (
  record {
    size = v.size;
    read_fits = omega arith;
    write_fits = v.write_fits;
    bounded = omega (arith, held-advance v h, v.bounded);
  },
  window_of_pos p.bytes p.nread (held p) (not_empty v h)
      ∙ ap (λ k. front p ∷ window p.bytes (add32 p.nread 1) k) (sym (held-advance v h)),
)

-- The lock is no part of the queue.
pub release-IsValid : {p : Pipe} → IsValid p → IsValid (release p)
release-IsValid v = record {
  size = v.size;
  read_fits = v.read_fits;
  write_fits = v.write_fits;
  bounded = v.bounded;
}

pub acquire-IsValid : {p : Pipe} → IsValid p → IsValid (acquire p)
acquire-IsValid v = record {
  size = v.size;
  read_fits = v.read_fits;
  write_fits = v.write_fits;
  bounded = v.bounded;
}
