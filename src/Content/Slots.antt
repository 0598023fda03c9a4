-- ===== src/Content/Slots.antt =====
-- The blocks of an inode as slots, and what must hold of them.
use cs.Base.{ℕ, ◌+◌, ◌-◌, ◌^◌, ◌<◌, ◌≡◌, ◌≢◌, refl, sym, ◌∙◌, true, ◌==◌, ltb, if◌then◌else◌}
use cs.Blocks.{Blocks, bblock}
use cs.Blocks.Bits.{used, MarksBitmap}
use cs.Content.{ndirect, word_at}

-- Slots 0 to 11 are the direct blocks, 12 is the indirect block, and 13 to 140 are its entries.
abbrev pub nslots : ℕ
nslots = 141

-- The entry `j` of the indirect block `ind`, if there is one.
abbrev pub entry : ℕ → ℕ → Blocks → ℕ
entry ind j s = if ind == 0 then 0 else word_at (s.bytes ind) j

abbrev pub slot : (ℕ → ℕ) → Blocks → ℕ → ℕ
slot addrs s k = if ltb k 13 then addrs k else entry (addrs ndirect) (k - 13) s

-- The slot for block `bn` of the contents, of which there are 140.
abbrev pub maxfile : ℕ
maxfile = 140

abbrev pub slot_for : ℕ → ℕ
slot_for bn = if ltb bn ndirect then bn else bn + 1

-- Byte `i` of block `bn` of the contents; where there is no block, it is zero.
abbrev pub byte_in : ℕ → ℕ → Blocks → ℕ
byte_in b i s = if b == 0 then 0 else s.bytes b i

abbrev pub content : (ℕ → ℕ) → Blocks → ℕ → ℕ → ℕ
content addrs s bn i = byte_in (slot addrs s (slot_for bn)) i s

-- A block in use that is not part of the bitmap.
pub record IsData (s : Blocks) (b : ℕ) : Type 0 where
  pub within : b < s.size
  pub in_use : used s b ≡ true
  pub no_bitmap : (m : ℕ) → m < s.size → b ≢ bblock m s

-- The disk: the bitmap lies on it and marks its own blocks and the boot block, and addresses fit 32
-- bits.
pub record IsDisk (s : Blocks) : Type 0 where
  pub bitmap_within : (m : ℕ) → m < s.size → bblock m s < s.size
  pub marks : MarksBitmap s
  pub boot : used s 0 ≡ true
  pub fits : s.size < 2 ^ 32

-- The blocks of an inode are in use, and different.
pub record IsMapped (addrs : ℕ → ℕ) (s : Blocks) : Type 0 where
  pub disk : IsDisk s
  pub held : (k : ℕ) → k < nslots → slot addrs s k ≢ 0 → IsData s (slot addrs s k)
  pub apart :
      (j k : ℕ)
      → j < nslots
      → k < nslots
      → j ≢ k
      → slot addrs s j ≡ slot addrs s k
      → slot addrs s j ≡ 0

-- A block that belongs to something else.
pub record IsForeign (addrs : ℕ → ℕ) (s : Blocks) (b : ℕ) : Type 0 where
  pub is_data : IsData s b
  pub not_own : (k : ℕ) → k < nslots → slot addrs s k ≢ b

-- What `bmap` may do: more blocks for the inode, whose contents stay, and no change elsewhere.
pub record Grown (addrs : ℕ → ℕ) (s : Blocks) (addrs' : ℕ → ℕ) (s' : Blocks) : Type 0 where
  pub mapped : IsMapped addrs' s'
  pub kept : (k : ℕ) → k < nslots → slot addrs s k ≢ 0 → slot addrs' s' k ≡ slot addrs s k
  pub same : (bn i : ℕ) → bn < maxfile → content addrs' s' bn i ≡ content addrs s bn i
  pub foreign :
      (b : ℕ) → IsForeign addrs s b → IsForeign addrs' s' b × ((i : ℕ) → s'.bytes b i ≡ s.bytes b i)
  pub size : s'.size ≡ s.size

pub Grown-refl : (addrs : ℕ → ℕ) (s : Blocks) → IsMapped addrs s → Grown addrs s addrs s
Grown-refl addrs s m = record {
  mapped = m;
  kept = λ k lt nz. refl;
  same = λ bn i lt. refl;
  foreign = λ b f. (f, λ i. refl);
  size = refl;
}

pub Grown-trans :
    (a1 a2 a3 : ℕ → ℕ) (s1 s2 s3 : Blocks)
    → Grown a1 s1 a2 s2
    → Grown a2 s2 a3 s3
    → Grown a1 s1 a3 s3
Grown-trans a1 a2 a3 s1 s2 s3 g h = record {
  mapped = h.mapped;
  kept = λ k lt nz. h.kept k lt (λ z. nz (sym (g.kept k lt nz) ∙ z)) ∙ g.kept k lt nz;
  same = λ bn i lt. h.same bn i lt ∙ g.same bn i lt;
  foreign =
      λ b f. let f1 = g.foreign b f in let f2 = h.foreign b f1.0 in (f2.0, λ i. f2.1 i ∙ f1.1 i);
  size = h.size ∙ g.size;
}
