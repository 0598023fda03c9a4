-- ===== src/Content/Grow.antt =====
-- A new block for a slot that had none.
use cs.Base.{
  ℕ, ◌+◌, ◌/◌, ◌^◌, ◌<◌, ◌≡◌, ◌≢◌, refl, ap, sym, ◌∙◌, true, false, arith, ◌==◌, if◌then◌else◌,
  Bool-cases, inl, inr, subst, ℕ_discrete, ok,
}
use cs.Blocks.{Blocks, bblock, balloc}
use cs.Blocks.Bits.{used}
use cs.Blocks.Alloc.{Allocates, balloc_lem}
use cs.Content.{ndirect}
use cs.Content.Slots.{
  nslots, slot, maxfile, slot_for, byte_in, content, IsData, IsDisk, IsMapped, Grown,
}

-- What `balloc` did, of a disk in order: `a` was free, is in use and zero, and no block outside of
-- the bitmap changed.
pub record Fresh (s u : Blocks) (a : ℕ) : Type 0 where
  pub within : a < s.size
  pub free : used s a ≡ false
  pub now : (m : ℕ) → m < s.size → used u m ≡ (if a == m then true else used s m)
  pub zero : (i : ℕ) → u.bytes a i ≡ 0
  pub size : u.size ≡ s.size
  pub start : u.bmapstart ≡ s.bmapstart
  pub frame :
      (b : ℕ)
      → b ≢ a
      → ((m : ℕ) → m < s.size → b ≢ bblock m s)
      → (i : ℕ) → u.bytes b i ≡ s.bytes b i

pub balloc-Fresh : (s u : Blocks) (a : ℕ) → IsDisk s → balloc s ≡ ok (u, a) → Fresh s u a
balloc-Fresh s u a d e =
    let h = subst (Allocates s) e (balloc_lem s d.marks) in
    record { within = h.0; free = h.1; now = h.3; zero = h.4; size = h.6; start = h.7; frame = h.8 }

-- The blocks of the bitmap keep their numbers.
bblock_same : (s u : Blocks) (m : ℕ) → u.bmapstart ≡ s.bmapstart → bblock m u ≡ bblock m s
bblock_same s u m e = ap (λ x. m / 4096 + x) e

still_used : (s u : Blocks) (a m : ℕ) → Fresh s u a → m < s.size → used s m ≡ true → used u m ≡ true
still_used s u a m f lt e =
    f.now m lt ∙ elim (Bool-cases (a == m)) [ inl h ↦ rw h refl | inr h ↦ rw h e ]

pub in_block : (b i : ℕ) (s : Blocks) → b ≢ 0 → byte_in b i s ≡ s.bytes b i
in_block b i s ne = let nz : (b == 0) ≡ false = ground arith in rw nz refl

module _ (s u v : Blocks) (a : ℕ) (d : IsDisk s) (f : Fresh s u a) where
  pub fresh-ne : (b : ℕ) → IsData s b → b ≢ a
  fresh-ne b h e =
      let e' : used s a ≡ true = subst (λ x. used s x ≡ true) e h.in_use in let e'' = f.free in cc

  pub fresh-ne-zero : a ≢ 0
  fresh-ne-zero e =
      let e' = d.boot in let e'' : used s 0 ≡ false = subst (λ x. used s x ≡ false) e f.free in cc

  fresh-no_bitmap : (m : ℕ) → m < s.size → a ≢ bblock m s
  fresh-no_bitmap m lt e =
      let e' = d.marks m lt in
      let e'' : used s (bblock m s) ≡ false = subst (λ x. used s x ≡ false) e f.free in cc

  -- `v` is `u` but for what is written to a block that is not of the bitmap.
  module _ (size : v.size ≡ u.size) (start : v.bmapstart ≡ u.bmapstart)
      (bits : (m : ℕ) → m < s.size → used v m ≡ used u m) where
    kept-IsData : (b : ℕ) → IsData s b → IsData v b
    kept-IsData b h = record {
      within = subst (λ n. b < n) (sym (size ∙ f.size)) h.within;
      in_use = bits b h.within ∙ still_used s u a b f h.within h.in_use;
      no_bitmap = λ m lt e.
          h.no_bitmap m (subst (λ n. m < n) (size ∙ f.size) lt)
            (e ∙ bblock_same s v m (start ∙ f.start));
    }

    fresh-IsData : IsData v a
    fresh-IsData = record {
      within = subst (λ n. a < n) (sym (size ∙ f.size)) f.within;
      in_use =
          bits a f.within
          ∙ f.now a f.within
          ∙ (let own : (a == a) ≡ true = ground arith in rw own refl);
      no_bitmap = λ m lt e.
          fresh-no_bitmap m (subst (λ n. m < n) (size ∙ f.size) lt)
            (e ∙ bblock_same s v m (start ∙ f.start));
    }

    fresh-IsDisk : IsDisk v
    fresh-IsDisk = record {
      marks = λ m lt.
          let lt' : m < s.size = subst (λ n. m < n) (size ∙ f.size) lt in
          let at = bblock_same s v m (start ∙ f.start) in
          subst (λ b. used v b ≡ true) (sym at)
            (bits (bblock m s) (d.bitmap_within m lt')
              ∙ still_used s u a (bblock m s) f (d.bitmap_within m lt') (d.marks m lt'));
      bitmap_within = λ m lt.
          let lt' : m < s.size = subst (λ n. m < n) (size ∙ f.size) lt in
          let at = bblock_same s v m (start ∙ f.start) in
          subst (λ b. b < v.size) (sym at)
            (subst (λ n. bblock m s < n) (sym (size ∙ f.size)) (d.bitmap_within m lt'));
      boot = let w = f.within in bits 0 (omega arith) ∙ still_used s u a 0 f (omega arith) d.boot;
      fits = subst (λ n. n < 2 ^ 32) (sym (size ∙ f.size)) d.fits;
    }

    module _ (addrs addrs' : ℕ → ℕ) (k0 : ℕ) (m : IsMapped addrs s) (k0-lt : k0 < nslots)
        (empty : slot addrs s k0 ≡ 0)
        (slots : (k : ℕ) → k < nslots → slot addrs' v k ≡ (if k0 == k then a else slot addrs s k))
        (kept_bytes : (b : ℕ) → b ≢ addrs ndirect → (i : ℕ) → v.bytes b i ≡ u.bytes b i) where
      slot_here : slot addrs' v k0 ≡ a
      slot_here = slots k0 k0-lt ∙ (let own : (k0 == k0) ≡ true = ground arith in rw own refl)

      slot_there : (k : ℕ) → k < nslots → k0 ≢ k → slot addrs' v k ≡ slot addrs s k
      slot_there k lt ne =
          slots k lt ∙ (let other : (k0 == k) ≡ false = ground arith in rw other refl)

      -- A block in use is not the new one, nor is block 0.
      old-ne : (k : ℕ) → k < nslots → slot addrs s k ≢ a
      old-ne k lt e = elim (ℕ_discrete (slot addrs s k) 0) [
        | yes z ↦ fresh-ne-zero (sym e ∙ z)
        | no nz ↦ fresh-ne (slot addrs s k) (m.held k lt nz) e
      ]

      old_bytes : (b i : ℕ) → IsData s b → b ≢ addrs ndirect → v.bytes b i ≡ s.bytes b i
      old_bytes b i h ne = kept_bytes b ne i ∙ f.frame b (fresh-ne b h) h.no_bitmap i

      fill-IsMapped : IsMapped addrs' v
      fill-IsMapped = record {
        disk = fresh-IsDisk;
        held = λ k lt nz. elim (ℕ_discrete k0 k) [
          | yes e ↦ subst (IsData v) (sym (ap (slot addrs' v) (sym e) ∙ slot_here)) fresh-IsData
          | no ne ↦
              let same = slot_there k lt ne in
              subst (IsData v) (sym same)
                (kept-IsData (slot addrs s k) (m.held k lt (λ z. nz (same ∙ z))))
        ];
        apart = λ j k ltj ltk ne e. elim (ℕ_discrete k0 j) [
          | yes ej ↦
              let there = slot_there k ltk (λ ek. ne (sym ej ∙ ek)) in
              let at : slot addrs' v j ≡ a = ap (slot addrs' v) (sym ej) ∙ slot_here in
              absurd (old-ne k ltk (sym there ∙ sym e ∙ at))
          | no nj ↦ elim (ℕ_discrete k0 k) [
            | yes ek ↦
                let at : slot addrs' v k ≡ a = ap (slot addrs' v) (sym ek) ∙ slot_here in
                absurd (old-ne j ltj (sym (slot_there j ltj nj) ∙ e ∙ at))
            | no nk ↦
                slot_there j ltj nj
                ∙ m.apart j k ltj ltk ne (sym (slot_there j ltj nj) ∙ e ∙ slot_there k ltk nk)
          ]
        ];
      }

      fill_same : (bn i : ℕ) → bn < maxfile → content addrs' v bn i ≡ content addrs s bn i
      fill_same bn i lt =
          let k = slot_for bn in
          let klt : k < nslots = ground arith in
          let k12 : k ≢ 12 = ground arith in
          elim (ℕ_discrete k0 k) [
            | yes e ↦
                let at : slot addrs' v k ≡ a = ap (slot addrs' v) (sym e) ∙ slot_here in
                let was : slot addrs s k ≡ 0 = ap (slot addrs s) (sym e) ∙ empty in
                ap (λ b. byte_in b i v) at
                ∙ in_block a i v fresh-ne-zero
                ∙ kept_bytes a (λ z. old-ne 12 (omega arith) (sym z)) i
                ∙ f.zero i
                ∙ sym (ap (λ b. byte_in b i s) was)
            | no ne ↦
                ap (λ b. byte_in b i v) (slot_there k klt ne)
                ∙ elim (ℕ_discrete (slot addrs s k) 0) [
                  | yes z ↦ ap (λ b. byte_in b i v) z ∙ sym (ap (λ b. byte_in b i s) z)
                  | no nz ↦
                      in_block (slot addrs s k) i v nz
                      ∙ old_bytes (slot addrs s k) i (m.held k klt nz)
                          (λ z. nz (m.apart k 12 klt (omega arith) k12 z))
                      ∙ sym (in_block (slot addrs s k) i s nz)
                ]
          ]

      pub fill-Grown : Grown addrs s addrs' v
      fill-Grown = record {
        mapped = fill-IsMapped;
        kept = λ k lt nz. slot_there k lt (λ e. nz (ap (slot addrs s) (sym e) ∙ empty));
        same = fill_same;
        foreign = λ b h. (
          record {
            is_data = kept-IsData b h.is_data;
            not_own = λ k lt e. elim (ℕ_discrete k0 k) [
              | yes ek ↦ fresh-ne b h.is_data (sym e ∙ ap (slot addrs' v) (sym ek) ∙ slot_here)
              | no ne ↦ h.not_own k lt (sym (slot_there k lt ne) ∙ e)
            ];
          },
          λ i. old_bytes b i h.is_data (λ z. h.not_own 12 (omega arith) (sym z)),
        );
        size = size ∙ f.size;
      }
