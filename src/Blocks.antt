-- ===== src/Blocks.antt =====
-- HW2/src/fs.c: which disk blocks are in use, `balloc`, `bzero` and `bfree`.
pub mod Bits
pub mod Alloc
mod Tests
use cs.Base.{
  ℕ, zero, suc, ◌+◌, ◌*◌, ◌/◌, ◌%◌, Bool, true, false, Option, none, some, ◌==◌, ltb, if◌then◌else◌,
  update, Outcome, ok, panic, ◌>>=◌,
}

-- `BPB`, bits in a block
abbrev pub bpb : ℕ
bpb = 4096

-- `data & (1 << k)`
unfoldable pub bit_at : ℕ → ℕ → Bool
bit_at zero x = x % 2 == 1
bit_at (suc k) x = bit_at k (x / 2)

-- `data | (1 << k)`
unfoldable pub set_bit : ℕ → ℕ → ℕ
set_bit zero x = x / 2 * 2 + 1
set_bit (suc k) x = set_bit k (x / 2) * 2 + x % 2

-- `data & ~(1 << k)`
unfoldable pub clear_bit : ℕ → ℕ → ℕ
clear_bit zero x = x / 2 * 2
clear_bit (suc k) x = clear_bit k (x / 2) * 2 + x % 2

-- The blocks as `bread` shows them, by block and byte, with `size` and `bmapstart` of the superblock.
pub record Blocks : Type 0 where
  pub size : ℕ
  pub bmapstart : ℕ
  pub bytes : ℕ → ℕ → ℕ

-- `BBLOCK`
abbrev pub bblock : ℕ → Blocks → ℕ
bblock b s = b / bpb + s.bmapstart

-- `bread`, a change of one byte, `log_write` and `brelse`.
abbrev pub write_byte : ℕ → ℕ → ℕ → Blocks → Blocks
write_byte bn i v s = record s { bytes = update s.bytes bn (update (s.bytes bn) i v) }

pub bzero : ℕ → Blocks → Blocks
bzero bno s = record s { bytes = update s.bytes bno (λ _. 0) }

abbrev pub is_used : ℕ → ℕ → Blocks → Bool
is_used b bi s = bit_at (bi % 8) (s.bytes (bblock b s) (bi / 8))

-- The inner loop of `balloc`, for `n` more bits from `bi` on.
pub find_bit : ℕ → ℕ → ℕ → Blocks → Option ℕ
find_bit zero bi b s = none
find_bit (suc n) bi b s =
    let rest = find_bit n (bi + 1) b s in
    if ltb (b + bi) s.size then (if is_used b bi s then rest else some bi) else none

abbrev pub mark : ℕ → ℕ → Blocks → Blocks
mark b bi s =
    let bn = bblock b s in write_byte bn (bi / 8) (set_bit (bi % 8) (s.bytes bn (bi / 8))) s

abbrev pub take_bit : ℕ → Blocks → Outcome (Blocks × ℕ) → Option ℕ → Outcome (Blocks × ℕ)
take_bit b s rest (some bi) = ok (bzero (b + bi) (mark b bi s), b + bi)
take_bit b s rest none = rest

-- The outer loop, for at most `n` more blocks of the bitmap, from bit `b` on.
pub balloc_from : ℕ → ℕ → Blocks → Outcome (Blocks × ℕ)
balloc_from zero b s = panic
balloc_from (suc n) b s =
    let rest = balloc_from n (b + bpb) s in
    let here = take_bit b s rest (find_bit bpb 0 b s) in if ltb b s.size then here else panic

pub balloc : Blocks → Outcome (Blocks × ℕ)
balloc s = balloc_from (s.size / bpb + 1) 0 s

pub bfree : ℕ → Blocks → Outcome Blocks
bfree b s =
    let bn = bblock b s in
    let bi = b % bpb in
    let x = s.bytes bn (bi / 8) in
    if bit_at (bi % 8) x then ok (write_byte bn (bi / 8) (clear_bit (bi % 8) x) s) else panic
