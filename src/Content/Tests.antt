-- ===== src/Content/Tests.antt =====
-- A file of 100 bytes in block 5, on a disk of 40 blocks whose bitmap is block 4.
use cs.Base.{
  ℕ, ◌+◌, ◌/◌, ◌<◌, ◌≤◌, ◌≡◌, ◌≢◌, refl, ap, sym, ◌∙◌, true, false, Option, none, arith, ◌==◌, ltb,
  if◌then◌else◌, Bool-cases, inl, inr, subst, ℕ_discrete, pos, ok,
}
use cs.Blocks.{Blocks, bblock, bit_at}
use cs.Blocks.Bits.{used}
use cs.Content.{bsize, ndirect, Inode, Fs, itrunc}
use cs.Content.Io.{Device, moved, readi, writei}
use cs.Content.Slots.{slot, IsData, IsDisk, IsMapped}
use cs.Content.Bmap.{low_slot, high_slot}
use cs.Content.Freed.{Freed}
use cs.Content.Truncate.{itrunc_lem}
use cs.Content.Files.{IsFile, Writes, file_byte, readi_lem, writei_lem}
use cs.Content.Overwrite.{writei-readi}

abbrev disk : Blocks
disk = record { size = 40; bmapstart = 4; bytes = λ b i. if b == 4 then 63 else i }

abbrev addrs : ℕ → ℕ
addrs k = if k == 0 then 5 else 0

abbrev pub one_block : Inode
one_block = record {
  inum = 2;
  copy = record { type = 2; major = 0; minor = 0; nlink = 1; size = 100; addrs = addrs };
}

abbrev pub fs : Fs
fs = record { blocks = disk; dinodes = λ _. one_block.copy }

slots : (k : ℕ) → slot addrs disk k ≡ (if k == 0 then 5 else 0)
slots k = elim (Bool-cases (ltb k 13)) [
  | inl e ↦ low_slot addrs disk k (ground arith)
  | inr e ↦
      let other : (k == 0) ≡ false = ground arith in
      high_slot addrs disk k (ground arith) ∙ rw other refl
]

first_slot : (k : ℕ) → slot addrs disk k ≢ 0 → k ≡ 0
first_slot k nz = elim (ℕ_discrete k 0) [
  | yes e ↦ e
  | no ne ↦ let other : (k == 0) ≡ false = ground arith in absurd (nz (slots k ∙ rw other refl))
]

disk-IsDisk : IsDisk disk
unfolding bit_at
disk-IsDisk = record {
  bitmap_within = λ m lt. omega arith;
  marks =
      λ m lt. subst (λ b. used disk b ≡ true) (let at : 4 ≡ bblock m disk = omega arith in at) refl;
  boot = refl;
  fits = omega arith;
}

five-IsData : IsData disk 5
unfolding bit_at
five-IsData = record {
  within = omega arith;
  in_use = refl;
  no_bitmap = λ m lt e. let at : 4 ≡ bblock m disk = omega arith in omega arith;
}

one_block-IsMapped : IsMapped addrs disk
one_block-IsMapped = record {
  disk = disk-IsDisk;
  held = λ k lt nz.
      let five : 5 ≡ slot addrs disk k = sym (ap (slot addrs disk) (first_slot k nz)) in
      subst (IsData disk) five five-IsData;
  apart = λ j k _ _ ne e. elim (ℕ_discrete (slot addrs disk j) 0) [
    | yes z ↦ z
    | no nz ↦ absurd (ne (first_slot j nz ∙ sym (first_slot k (λ z. nz (e ∙ z)))))
  ];
}

pub one_block-IsFile : IsFile one_block fs
one_block-IsFile = record {
  mapped = one_block-IsMapped;
  whole = λ j lt z.
      let first : j / bsize ≡ 0 = omega arith in
      let five : 5 ≡ 0 =
        ap (λ b. slot addrs disk (if ltb b 12 then b else b + 1)) (sym first) ∙ z in
      absurd (omega arith);
  bounded = omega arith;
  plain = λ e. omega arith;
}

abbrev pub no_devices : ℕ → Option Device
no_devices _ = none

writei_lem_example :
    Writes 90 600 1000 (λ a. a) one_block fs (writei no_devices 1000 90 600 one_block fs (λ a. a))
writei_lem_example =
    writei_lem no_devices 1000 90 600 one_block fs (λ a. a) one_block-IsFile (omega arith)
      (omega arith)

readi_lem_example :
    (mem' : ℕ → ℕ) × (readi no_devices 200 30 500 one_block fs (λ _. 0)
      ≡ ok (one_block, fs, mem', pos 70))
    × ((i : ℕ) → mem' i ≡ moved (λ _. 0) 200 70 (file_byte one_block fs) 30 i)
readi_lem_example =
    readi_lem no_devices 200 30 500 one_block fs (λ _. 0) one_block-IsFile (omega arith)
      (omega arith)

writei-readi_example :
    (u : Fs) × (to' : ℕ → ℕ) × (writei no_devices 1000 10 20 one_block fs (λ a. a)
      ≡ ok (one_block, u, λ a. a, pos 20))
    × (readi no_devices 300 10 20 one_block u (λ _. 0) ≡ ok (one_block, u, to', pos 20))
    × ((i : ℕ) → i < 20 → to' (300 + i) ≡ 1000 + i)
writei-readi_example =
    writei-readi no_devices 1000 300 10 20 one_block fs (λ a. a) (λ _. 0) one_block-IsFile
      (omega arith)

itrunc_lem_example :
    (ip' : Inode) × (fs' : Fs) × (itrunc one_block fs ≡ ok (ip', fs'))
    × (ip'.copy.size ≡ 0)
    × ((k : ℕ) → k ≤ ndirect → ip'.copy.addrs k ≡ 0)
    × (fs'.dinodes ip'.inum ≡ ip'.copy)
    × Freed addrs disk (λ _. true) fs'.blocks
itrunc_lem_example = itrunc_lem one_block fs one_block-IsMapped
