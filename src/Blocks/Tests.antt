-- ===== src/Blocks/Tests.antt =====
-- A disk of 40 blocks, of which blocks 0 to 4 are in use; block 4 is the bitmap.
use cs.Base.{◌≡◌, refl, true, arith, ◌==◌, if◌then◌else◌, subst}
use cs.Blocks.{bit_at, Blocks, bblock, balloc}
use cs.Blocks.Bits.{used, MarksBitmap}
use cs.Blocks.Alloc.{Allocates, balloc_lem}

abbrev small_disk : Blocks
small_disk = record { size = 40; bmapstart = 4; bytes = λ b i. if b == 4 then 31 else 0 }

small_disk-MarksBitmap : MarksBitmap small_disk
unfolding bit_at
small_disk-MarksBitmap m lt =
    let own : 4 ≡ bblock m small_disk = omega arith in
    subst (λ b. used small_disk b ≡ true) own refl

balloc_lem_example : Allocates small_disk (balloc small_disk)
balloc_lem_example = balloc_lem small_disk small_disk-MarksBitmap
