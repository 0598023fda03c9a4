-- ===== src/Pipe/Read.antt =====
-- `piperead`: one stretch of it, from the call or a wakeup to the next sleep or the return.
use cs.Base.{
  ◌∙◌, ℕ, zero, suc, ◌≡◌, refl, ap, sym, Bool, true, false, ◌&&◌, Option, none, some, List, [], ◌∷◌,
  arith, ◌==◌, if◌then◌else◌, length, take, drop, Bool-cases, inl, inr,
}
use cs.Pipe.{
  Pipe, Chan, Run, Ending, at_nread, at_nwrite, returned, sleeping, acquire, release, empty, front,
  advance, copy_loop, piperead,
}
use cs.Pipe.Window.{
  IsValid, held, contents, contents-advance, empty_held, acquire-IsValid, release-IsValid,
}

pub record Copied (n : ℕ) (p : Pipe) (r : List ℕ × Pipe) : Type 0 where
  pub valid : IsValid r.1
  pub readopen : r.1.readopen ≡ p.readopen
  pub writeopen : r.1.writeopen ≡ p.writeopen
  pub out : r.0 ≡ take n (contents p)
  pub left : contents r.1 ≡ drop n (contents p)

contents_of_empty : {p : Pipe} → IsValid p → empty p ≡ true → contents p ≡ []
contents_of_empty {p} v e = rw (empty_held v e)

Copied-loop : (n : ℕ) (p : Pipe) → IsValid p → Copied n p (copy_loop n p)
unfolding copy_loop
Copied-loop zero p v = record {
  valid = v;
  readopen = refl;
  writeopen = refl;
  out = refl;
  left = refl;
}
Copied-loop (suc n) p v = elim (Bool-cases (empty p)) [
  | inl e ↦
      let c = contents_of_empty v e in
      rw e (record { valid = v; readopen = refl; writeopen = refl; out = rw c; left = rw c })
  | inr e ↦
      let (va, c) = contents-advance v e in
      let w = Copied-loop n (advance p) va in
      rw e (record {
        valid = w.valid;
        readopen = w.readopen;
        writeopen = w.writeopen;
        out = rw c (ap (λ l. front p ∷ l) w.out);
        left = rw c w.left;
      })
]

-- Whether a reader waits: the pipe is empty and somebody may still write.
abbrev pub waits : Pipe → Bool
waits p = (held p == 0) && p.writeopen

abbrev pub read_ending : Bool → Bool → ℕ → List ℕ → Ending (Option (List ℕ)) ℕ
read_ending waiting killed n q =
    if waiting
    then (if killed then returned none else sleeping at_nread n)
    else returned (some (take n q))

abbrev pub read_woken : Bool → List Chan
read_woken waiting = if waiting then [] else at_nwrite ∷ []

abbrev pub read_left : Bool → ℕ → List ℕ → List ℕ
read_left waiting n q = if waiting then q else drop n q

pub record DidRead (killed : Bool) (p : Pipe) (n : ℕ) (r : Run (Option (List ℕ)) ℕ) : Type 0 where
  pub valid : IsValid r.pipe
  pub unlocked : r.pipe.lock ≡ false
  pub readopen : r.pipe.readopen ≡ p.readopen
  pub writeopen : r.pipe.writeopen ≡ p.writeopen
  pub left : contents r.pipe ≡ read_left (waits p) n (contents p)
  pub ending : r.ending ≡ read_ending (waits p) killed n (contents p)
  pub woken : r.woken ≡ read_woken (waits p)

empty-eq-held : {p : Pipe} → IsValid p → empty p ≡ (held p == 0)
empty-eq-held v = ground arith

waits_lem : {p : Pipe} → IsValid p → (empty p && p.writeopen) ≡ waits p
waits_lem {p} v = ap (λ b. b && p.writeopen) (empty-eq-held v)

abbrev wait_run : Bool → Pipe → ℕ → Run (Option (List ℕ)) ℕ
wait_run killed q n =
    if killed
    then record { pipe = release q; woken = []; count = 0; ending = returned none }
    else record { pipe = release q; woken = []; count = 0; ending = sleeping at_nread n }

DidRead-wait :
    (killed : Bool) (p : Pipe) (n : ℕ)
    → IsValid p
    → waits p ≡ true
    → DidRead killed p n (wait_run killed (acquire p) n)
DidRead-wait true p n v w = record {
  valid = release-IsValid (acquire-IsValid v);
  unlocked = refl;
  readopen = refl;
  writeopen = refl;
  left = rw w;
  ending = rw w;
  woken = rw w;
}
DidRead-wait false p n v w = record {
  valid = release-IsValid (acquire-IsValid v);
  unlocked = refl;
  readopen = refl;
  writeopen = refl;
  left = rw w;
  ending = rw w;
  woken = rw w;
}

abbrev copy_run : Pipe → ℕ → Run (Option (List ℕ)) ℕ
copy_run q n =
    let (bs, q') = copy_loop n q in
    record {
      pipe = release q';
      woken = at_nwrite ∷ [];
      count = length bs;
      ending = returned (some bs);
    }

DidRead-copy :
    (killed : Bool) (p : Pipe) (n : ℕ)
    → IsValid p
    → waits p ≡ false
    → DidRead killed p n (copy_run (acquire p) n)
DidRead-copy killed p n v w =
    let c = Copied-loop n (acquire p) (acquire-IsValid v) in
    record {
      valid = release-IsValid c.valid;
      unlocked = refl;
      readopen = c.readopen;
      writeopen = c.writeopen;
      left = rw w c.left;
      ending = rw w (ap (λ l. returned (some l)) c.out);
      woken = rw w;
    }

-- One stretch of `piperead` for `n` bytes. On an empty pipe that somebody may still write, a
-- killed process gets -1 and another sleeps; nothing changes and nobody is woken. In all other
-- cases it takes the first `n` bytes of the queue, or all of them if there are fewer, in order,
-- returns them and wakes the writers. The lock is free at the end, the ends of the pipe are as
-- they were, and the pipe is valid.
pub piperead_lem :
    (killed : Bool) (p : Pipe) (n : ℕ) → IsValid p → DidRead killed p n (piperead killed p n)
unfolding piperead
piperead_lem killed p n v = elim (Bool-cases (empty p && p.writeopen)) [
  | inl e ↦ rw e (DidRead-wait killed p n v (sym (waits_lem v) ∙ e))
  | inr e ↦ rw e (DidRead-copy killed p n v (sym (waits_lem v) ∙ e))
]
