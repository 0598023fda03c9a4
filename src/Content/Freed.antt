-- ===== src/Content/Freed.antt =====
-- Blocks of an inode that are given back.
use cs.Base.{
  ℕ, ◌+◌, ◌/◌, ◌<◌, ◌≡◌, ◌≢◌, refl, ap, sym, ◌∙◌, Bool, true, false, ◌||◌, ◌⊎◌, arith, ◌==◌,
  Bool-cases, inl, inr, subst, ok,
}
use cs.Blocks.{Blocks, bfree}
use cs.Blocks.Bits.{used}
use cs.Blocks.Alloc.{bfree_lem}
use cs.Content.Slots.{nslots, slot, IsData, IsMapped}

-- The blocks of the slots that pass are free, those of all others in use are as they were, and no
-- contents changed.
pub record Freed (addrs : ℕ → ℕ) (s : Blocks) (done : ℕ → Bool) (u : Blocks) : Type 0 where
  pub gone :
      (k : ℕ) → k < nslots → done k ≡ true → slot addrs s k ≢ 0 → used u (slot addrs s k) ≡ false
  pub rest :
      (n : ℕ) → ((k : ℕ) → k < nslots → done k ≡ true → slot addrs s k ≢ n) → used u n ≡ used s n
  pub bytes : (b : ℕ) → IsData s b → (i : ℕ) → u.bytes b i ≡ s.bytes b i
  pub size : u.size ≡ s.size
  pub start : u.bmapstart ≡ s.bmapstart

or_cases : (a b : Bool) → (a || b) ≡ true → (a ≡ true) ⊎ (b ≡ true)
or_cases true b e = inl refl
or_cases false b e = inr e

or_left : (a b : Bool) → a ≡ true → (a || b) ≡ true
or_left a b e = rw e refl

or_right : (a b : Bool) → b ≡ true → (a || b) ≡ true
or_right true b e = refl
or_right false b e = e

module _ (addrs : ℕ → ℕ) (s : Blocks) (m : IsMapped addrs s) where
  pub Freed-same :
      (done done' : ℕ → Bool) (u : Blocks)
      → ((k : ℕ) → k < nslots → done' k ≡ done k)
      → Freed addrs s done u
      → Freed addrs s done' u
  Freed-same done done' u e f = record {
    gone = λ k lt d nz. f.gone k lt (sym (e k lt) ∙ d) nz;
    rest = λ n no_one. f.rest n (λ k lt d. no_one k lt (e k lt ∙ d));
    bytes = f.bytes;
    size = f.size;
    start = f.start;
  }

  -- More slots pass, which have no block.
  pub more-Freed :
      (done done' : ℕ → Bool) (u : Blocks)
      → ((k : ℕ) → done k ≡ true → done' k ≡ true)
      → ((k : ℕ) → k < nslots → done' k ≡ true → done k ≡ false → slot addrs s k ≡ 0)
      → Freed addrs s done u
      → Freed addrs s done' u
  more-Freed done done' u more none_there f = record {
    gone = λ k lt d nz. elim (Bool-cases (done k)) [
      | inl e ↦ f.gone k lt e nz
      | inr e ↦ absurd (nz (none_there k lt d e))
    ];
    rest = λ n no_one. f.rest n (λ k lt d. no_one k lt (more k d));
    bytes = f.bytes;
    size = f.size;
    start = f.start;
  }

  -- `bfree` of a block that is still there.
  pub bfree-Freed :
      (done : ℕ → Bool) (u : Blocks) (k0 : ℕ)
      → k0 < nslots
      → done k0 ≡ false
      → slot addrs s k0 ≢ 0
      → Freed addrs s done u
      → (v : Blocks) × (bfree (slot addrs s k0) u ≡ ok v)
        × Freed addrs s (λ k. done k || (k0 == k)) v
  bfree-Freed done u k0 lt nd nz f =
      let b = slot addrs s k0 in
      let h = m.held k0 lt nz in
      let still : used u b ≡ used s b = f.rest b (λ k ltk d e. nz (
        m.apart k0 k lt ltk
          (λ same. let d' : done k0 ≡ true = subst (λ x. done x ≡ true) (sym same) d in cc)
          (sym e))) in
      let out = bfree_lem b u (still ∙ h.in_use) in
      (
        out.0,
        out.1,
        record {
          gone = λ k ltk d nzk. out.2 (slot addrs s k) ∙ elim (Bool-cases (b == slot addrs s k)) [
            | inl e ↦ rw e refl
            | inr e ↦ elim (or_cases (done k) (k0 == k) d) [
              | inl d' ↦ rw e (f.gone k ltk d' nzk)
              | inr same ↦
                  let eq : k0 ≡ k = ground arith in
                  let hit : b ≡ slot addrs s k = ap (slot addrs s) eq in absurd (ground arith)
            ]
          ];
          rest = λ n no_one.
              let ne : (b == n) ≡ false =
                (let away = no_one k0 lt (or_right (done k0) (k0 == k0) (ground arith)) in
                  ground arith) in
              out.2 n ∙ rw ne (f.rest n (λ k ltk d. no_one k ltk (or_left (done k) (k0 == k) d)));
          bytes = λ c hc i.
              out.5 c (λ e. hc.no_bitmap b h.within (e ∙ ap (λ x. b / 4096 + x) f.start)) i
              ∙ f.bytes c hc i;
          size = out.3 ∙ f.size;
          start = out.4 ∙ f.start;
        },
      )
