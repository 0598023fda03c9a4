-- ===== src/Content/Blit.antt =====
-- What writing to blocks of an inode does to its contents.
use cs.Base.{
  ℕ, ◌+◌, ◌-◌, ◌/◌, ◌%◌, ◌<◌, ◌≤◌, ◌≡◌, ◌≢◌, refl, ap, sym, ◌∙◌, false, ◌&&◌, arith, ◌==◌, ltb, leb,
  if◌then◌else◌, Bool-cases, inl, inr, subst, ℕ_discrete, update_self, update_ne,
}
use cs.Blocks.{Blocks, bblock, bit_at}
use cs.Blocks.Bits.{used}
use cs.Content.{bsize, ndirect}
use cs.Content.Io.{max_bytes, moved, write_bytes}
use cs.Content.Slots.{
  nslots, entry, slot, maxfile, slot_for, byte_in, content, IsData, IsMapped, IsForeign,
}
use cs.Content.Entries.{word_at_same}
use cs.Content.Grow.{in_block}

-- Byte `j` of the contents.
abbrev pub byte_at : (ℕ → ℕ) → Blocks → ℕ → ℕ
byte_at addrs s j = content addrs s (j / bsize) (j % bsize)

-- `n` bytes from `src` on were written at `off`: the inode has blocks for them, its other contents
-- and other blocks in use are as they were.
pub record Wrote (off n src : ℕ) (mem : ℕ → ℕ) (addrs : ℕ → ℕ) (s : Blocks) (addrs' : ℕ → ℕ)
    (s' : Blocks) : Type 0 where
  pub mapped : IsMapped addrs' s'
  pub kept : (k : ℕ) → k < nslots → slot addrs s k ≢ 0 → slot addrs' s' k ≡ slot addrs s k
  pub filled : (j : ℕ) → off ≤ j → j < off + n → slot addrs' s' (slot_for (j / bsize)) ≢ 0
  pub bytes :
      (j : ℕ) → j < max_bytes → byte_at addrs' s' j ≡ moved (byte_at addrs s) off n mem src j
  pub foreign :
      (b : ℕ) → IsForeign addrs s b → IsForeign addrs' s' b × ((i : ℕ) → s'.bytes b i ≡ s.bytes b i)
  pub size : s'.size ≡ s.size

-- Block `bn` of the contents gets `len` bytes at `at`.
module _ (addrs : ℕ → ℕ) (s : Blocks) (m : IsMapped addrs s) (bn : ℕ) (lt : bn < maxfile) (b : ℕ)
    (is_slot : slot addrs s (slot_for bn) ≡ b) (nz : b ≢ 0) (at len src : ℕ) (mem : ℕ → ℕ) where
  abbrev pub after : Blocks
  after = write_bytes b at len mem src s

  b-IsData : IsData s b
  b-IsData =
      subst (IsData s) is_slot (m.held (slot_for bn) (ground arith) (λ z. nz (sym is_slot ∙ z)))

  other_bytes : (c i : ℕ) → c ≢ b → after.bytes c i ≡ s.bytes c i
  other_bytes c i ne =
      ap (λ f. f i) (update_ne s.bytes b c (moved (s.bytes b) at len mem src) (λ e. ne (sym e)))

  own_bytes : (i : ℕ) → after.bytes b i ≡ moved (s.bytes b) at len mem src i
  own_bytes i = ap (λ f. f i) (update_self s.bytes b (moved (s.bytes b) at len mem src))

  -- Other slots are other blocks.
  slot-ne : (k : ℕ) → k < nslots → k ≢ slot_for bn → slot addrs s k ≢ b
  slot-ne k ltk ne e =
      nz (
        sym is_slot
        ∙ m.apart (slot_for bn) k (ground arith) ltk (λ x. ne (sym x)) (is_slot ∙ sym e))

  pub slots_same : (k : ℕ) → slot addrs after k ≡ slot addrs s k
  slots_same k = elim (Bool-cases (ltb k 13)) [
    | inl e ↦ rw e refl
    | inr e ↦ rw e (elim (ℕ_discrete (addrs ndirect) 0) [
      | yes z ↦ ap (λ x. entry x (k - 13) after) z ∙ sym (ap (λ x. entry x (k - 13) s) z)
      | no nz12 ↦
          let has : (addrs ndirect == 0) ≡ false = ground arith in
          rw has (
            word_at_same (after.bytes (addrs ndirect)) (s.bytes (addrs ndirect)) (k - 13)
              (λ i. other_bytes (addrs ndirect) i (slot-ne 12 (omega arith) (ground arith))))
    ])
  ]

  pub used_same : (n : ℕ) → n < s.size → used after n ≡ used s n
  used_same n ltn =
      ap (λ f. bit_at (n % 4096 % 8) (f (n % 4096 / 8)))
        (update_ne s.bytes b (bblock n s) (moved (s.bytes b) at len mem src)
          (b-IsData.no_bitmap n ltn))

  still-IsData : (c : ℕ) → IsData s c → IsData after c
  still-IsData c h = record {
    within = h.within;
    in_use = used_same c h.within ∙ h.in_use;
    no_bitmap = h.no_bitmap;
  }

  pub after-IsMapped : IsMapped addrs after
  after-IsMapped =
      let d = m.disk in
      record {
        disk = record {
          bitmap_within = d.bitmap_within;
          marks = λ n ltn. used_same (bblock n s) (d.bitmap_within n ltn) ∙ d.marks n ltn;
          boot = let w = b-IsData.within in used_same 0 (omega arith) ∙ d.boot;
          fits = d.fits;
        };
        held = λ k ltk nzk.
            subst (IsData after) (sym (slots_same k))
              (still-IsData (slot addrs s k) (m.held k ltk (λ z. nzk (slots_same k ∙ z))));
        apart = λ j k ltj ltk ne e.
            slots_same j ∙ m.apart j k ltj ltk ne (sym (slots_same j) ∙ e ∙ slots_same k);
      }

  pub content_here :
      (i : ℕ) → content addrs after bn i ≡ moved (content addrs s bn) at len mem src i
  content_here i =
      let was : (i : ℕ) → content addrs s bn i ≡ s.bytes b i =
        λ i. ap (λ x. byte_in x i s) is_slot ∙ in_block b i s nz in
      ap (λ x. byte_in x i after) (slots_same (slot_for bn) ∙ is_slot)
      ∙ in_block b i after nz
      ∙ own_bytes i
      ∙ ap (λ x. if leb at i && ltb i (at + len) then mem (src + (i - at)) else x) (sym (was i))

  pub content_there :
      (k i : ℕ) → k < maxfile → k ≢ bn → content addrs after k i ≡ content addrs s k i
  content_there k i ltk ne =
      let sk = slot addrs s (slot_for k) in
      ap (λ x. byte_in x i after) (slots_same (slot_for k)) ∙ elim (ℕ_discrete sk 0) [
        | yes z ↦ ap (λ x. byte_in x i after) z ∙ sym (ap (λ x. byte_in x i s) z)
        | no nzk ↦
            in_block sk i after nzk
            ∙ other_bytes sk i (slot-ne (slot_for k) (ground arith) (ground arith))
            ∙ sym (in_block sk i s nzk)
      ]

  pub after-IsForeign :
      (c : ℕ)
      → IsForeign addrs s c
      → IsForeign addrs after c × ((i : ℕ) → after.bytes c i ≡ s.bytes c i)
  after-IsForeign c h = (
    record {
      is_data = still-IsData c h.is_data;
      not_own = λ k ltk e. h.not_own k ltk (sym (slots_same k) ∙ e);
    },
    λ i. other_bytes c i (λ e. h.not_own (slot_for bn) (ground arith) (is_slot ∙ sym e)),
  )
