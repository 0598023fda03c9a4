-- ===== src/Shared/Counts.antt =====
-- The reference count of a region is the number of processes that refer to it.
use cs.Base.{
  ℕ, zero, suc, ◌+◌, ◌≤◌, ◌<◌, ◌≡◌, ◌≢◌, refl, ap, sym, ◌∙◌, Bool, true, false, arith,
  if◌then◌else◌, update, update_cases, update_ne, update_self, ℕ_discrete, subst,
}
use cs.Shared.{max_sh, Region, Reference, Sharer, Shm}

abbrev pub bit : Bool → ℕ
bit true = 1
bit false = 0

-- How many of the first `n` pass.
pub count : (ℕ → Bool) → ℕ → ℕ
count f zero = 0
count f (suc n) = count f n + bit (f n)

pub count-le : (f : ℕ → Bool) (n : ℕ) → count f n ≤ n
unfolding count
count-le f zero = omega arith
count-le f (suc n) = ground (arith, count-le f n)

pub count_same : (f g : ℕ → Bool) (n : ℕ) → ((j : ℕ) → j < n → g j ≡ f j) → count g n ≡ count f n
unfolding count
count_same f g zero h = refl
count_same f g (suc n) h = rw (h n (omega arith), count_same f g n (λ j lt. h j (omega arith))) refl

count_flip :
    (f g : ℕ → Bool) (i n : ℕ)
    → i < n
    → ((j : ℕ) → j ≢ i → g j ≡ f j)
    → count g n + bit (f i) ≡ count f n + bit (g i)
unfolding count
count_flip f g i zero lt h = absurd (omega arith)
count_flip f g i (suc n) lt h = elim (ℕ_discrete n i) [
  | yes e ↦
      let same = count_same f g n (λ j l. h j (omega arith)) in
      let fe : bit (f n) ≡ bit (f i) = ap (λ k. bit (f k)) e in
      let ge : bit (g n) ≡ bit (g i) = ap (λ k. bit (g k)) e in omega arith
  | no ne ↦
      let ih = count_flip f g i n (omega arith) h in
      let same : bit (g n) ≡ bit (f n) = ap bit (h n ne) in omega arith
]

abbrev pub IsCounted : Region → ℕ → Type 0
IsCounted r n = if r.valid then r.ref_count ≡ n else n ≡ 0

count_false : (n : ℕ) → count (λ _. false) n ≡ 0
unfolding count
count_false zero = refl
count_false (suc n) = omega (arith, count_false n)

pub none-count : (f : ℕ → Bool) (n : ℕ) → ((i : ℕ) → f i ≡ false) → count f n ≡ 0
none-count f n h = count_same (λ _. false) f n (λ j _. h j) ∙ count_false n

pub count-zero : (f : ℕ → Bool) (n j : ℕ) → count f n ≡ 0 → j < n → f j ≡ false
unfolding count
count-zero f zero j h lt = absurd (omega arith)
count-zero f (suc n) j h lt = elim (ℕ_discrete j n) [
  | yes e ↦ ap f e ∙ bit-zero (f n) (omega arith)
  | no ne ↦ count-zero f n j (omega arith) (omega arith)
]
  where
    bit-zero : (b : Bool) → bit b ≡ 0 → b ≡ false
    bit-zero true h = absurd (omega arith)
    bit-zero false h = refl

module _ {D : Type 0} where
  -- Whether process `j` refers to the region.
  abbrev pub refers : Shm D → ℕ → ℕ → Bool
  refers s key j = ((s.procs j).shared key).set

  -- A valid region counts the processes that refer to it, and nobody refers to another region.
  abbrev pub CountsRefs : Shm D → Type 0
  CountsRefs s = (key : ℕ) → IsCounted (s.regions key) (count (refers s key) max_sh)

  -- What one operation of process `i` on region `key` may change: the references of no other process
  -- and to no other region.
  pub record Local (i key : ℕ) (s u : Shm D) : Type 0 where
    pub others : (k : ℕ) → k ≢ key → u.regions k ≡ s.regions k
    pub elsewhere : (k j : ℕ) → k ≢ key → refers u k j ≡ refers s k j
    pub same : (j : ℕ) → j ≢ i → refers u key j ≡ refers s key j

  Local-CountsRefs :
      (i key : ℕ) (s u : Shm D)
      → i < max_sh
      → Local i key s u
      → CountsRefs s
      → ((n : ℕ)
          → n + bit (refers s key i) ≡ count (refers s key) max_sh + bit (refers u key i)
          → IsCounted (u.regions key) n)
      → CountsRefs u
  Local-CountsRefs i key s u lt l h counted k = elim (ℕ_discrete k key) [
    | yes e ↦
        let flipped = count_flip (refers s key) (refers u key) i max_sh lt l.same in
        subst (λ k'. IsCounted (u.regions k') (count (refers u k') max_sh)) (sym e)
          (counted (count (refers u key) max_sh) flipped)
    | no ne ↦
        let kept = count_same (refers s k) (refers u k) max_sh (λ j _. l.elsewhere k j ne) in
        rw (l.others k ne, kept) (h k)
  ]

  -- The shared part of process `i` becomes `p`, and region `key` becomes `r`.
  abbrev pub with_region : Shm D → ℕ → ℕ → Region → Sharer D → ℕ → Shm D
  with_region s i key r p ncli = record {
    regions = update s.regions key r;
    procs = update s.procs i p;
    ncli = ncli;
  }

  with_region-Local :
      (s : Shm D) (i key : ℕ) (r : Region) (p : Sharer D) (ncli : ℕ)
      → ((k : ℕ) → k ≢ key → (p.shared k).set ≡ refers s k i)
      → Local i key s (with_region s i key r p ncli)
  with_region-Local s i key r p ncli h = record {
    others = λ k ne. update_ne s.regions key k r (λ e. ne (sym e));
    elsewhere = λ k j ne.
        update_cases (λ (q : Sharer D). (q.shared k).set ≡ refers s k j) s.procs i p j
          (λ e. h k ne ∙ ap (refers s k) e) (λ _. refl);
    same = λ j ne.
        ap (λ (q : Sharer D). (q.shared key).set) (update_ne s.procs i j p (λ e. ne (sym e)));
  }

  refers_self :
      (s : Shm D) (i key : ℕ) (r : Region) (p : Sharer D) (ncli : ℕ)
      → refers (with_region s i key r p ncli) key i ≡ (p.shared key).set
  refers_self s i key r p ncli = ap (λ (q : Sharer D). (q.shared key).set) (update_self s.procs i p)

  pub with_region-CountsRefs :
      (s : Shm D) (i key : ℕ) (r : Region) (p : Sharer D) (ncli : ℕ)
      → i < max_sh
      → ((k : ℕ) → k ≢ key → (p.shared k).set ≡ refers s k i)
      → CountsRefs s
      → ((n : ℕ)
          → n + bit (refers s key i) ≡ count (refers s key) max_sh + bit (p.shared key).set
          → IsCounted r n)
      → CountsRefs (with_region s i key r p ncli)
  with_region-CountsRefs s i key r p ncli lt same h counted =
      Local-CountsRefs i key s (with_region s i key r p ncli) lt
        (with_region-Local s i key r p ncli same) h
        (λ n e.
          let e' =
            e ∙ ap (λ b. count (refers s key) max_sh + bit b) (refers_self s i key r p ncli) in
          subst (λ q. IsCounted q n) (sym (update_self s.regions key r)) (counted n e'))

  pub region-CountsRefs :
      (s : Shm D) (key : ℕ) (r : Region) (ncli : ℕ)
      → CountsRefs s
      → IsCounted r (count (refers s key) max_sh)
      → CountsRefs (record s { regions = update s.regions key r; ncli = ncli })
  region-CountsRefs s key r ncli h counted k =
      update_cases (λ (q : Region). IsCounted q (count (refers s k) max_sh)) s.regions key r k
        (λ e. subst (λ k'. IsCounted r (count (refers s k') max_sh)) e counted) (λ _. h k)

  -- A reference of process `i` to region `key` is written.
  pub set_ref :
      (s : Shm D) (i key : ℕ) (ref : Reference) (k : ℕ)
      → k ≢ key
      → (update (s.procs i).shared key ref k).set ≡ refers s k i
  set_ref s i key ref k ne =
      ap (λ (x : Reference). x.set) (update_ne (s.procs i).shared key k ref (λ e. ne (sym e)))

  pub own_ref :
      (s : Shm D) (i key : ℕ) (ref : Reference)
      → (update (s.procs i).shared key ref key).set ≡ ref.set
  own_ref s i key ref = ap (λ (x : Reference). x.set) (update_self (s.procs i).shared key ref)

  -- Only the directory and `shaddr` of a process change, or how often `pushcli` was called.
  pub quiet-CountsRefs :
      (s u : Shm D)
      → ((k : ℕ) → u.regions k ≡ s.regions k)
      → ((k j : ℕ) → refers u k j ≡ refers s k j)
      → CountsRefs s
      → CountsRefs u
  quiet-CountsRefs s u hr hs h k =
      rw (hr k, count_same (refers s k) (refers u k) max_sh (λ j _. hs k j)) (h k)
