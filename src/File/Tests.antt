-- ===== src/File/Tests.antt =====
-- One file with two handles, and a file of an inode.
use cs.Base.{
  ℕ, ◌≡◌, ◌≤◌, ◌<◌, refl, true, false, [], ◌∷◌, arith, ◌==◌, if◌then◌else◌, update, pos, ok,
}
use cs.File.{
  alloc_from, filedup, fd_none, fd_inode, File, Files, Layers, fileclose, closing, no_call,
  filewrite,
}
use cs.File.Handles.{Step, Reach, CountsHandles, handles_to}
use cs.File.Table.{Reach-CountsHandles, Reach-fileclose}
use cs.File.Inodes.{Store, of_inode}
use cs.Blocks.{bit_at}
use cs.Content.Io.{max_bytes}
use cs.Content.Room.{free_count, free_blocks}
use cs.Content.Files.{file_byte}
use cs.Content.Tests.{one_block, fs, one_block-IsFile, no_devices}
use cs.File.Write.{overwritten, filewrite_lem}

abbrev zero_file : File
zero_file = record {
  type = fd_none;
  ref = 0;
  readable = false;
  writable = false;
  pipe = 0;
  ip = 0;
  off = 0;
}

abbrev opened : Files
opened = update (λ _. zero_file) 0 (record zero_file { ref = 1 })

abbrev doubled : Files
doubled = update opened 0 (record zero_file { ref = 2 })

two_handles : Reach (record { files = doubled; handles = 0 ∷ 0 ∷ [] })
unfolding alloc_from filedup
two_handles =
    Reach.then_step
      (Reach.then_step (Reach.begins {t = λ _. zero_file} (λ _. refl))
        (Step.allocs opened 0 (omega arith) refl))
      (Step.dups doubled 0 (omega arith) refl)

Reach-CountsHandles_example : CountsHandles (record { files = doubled; handles = 0 ∷ 0 ∷ [] })
Reach-CountsHandles_example = Reach-CountsHandles two_handles

Reach-fileclose_example :
    (t : Files) × (fileclose 0 doubled
      ≡ ok
          (t, if handles_to 0 (0 ∷ []) == 0 then closing (doubled 0).type (doubled 0) else no_call))
Reach-fileclose_example = Reach-fileclose [] (0 ∷ []) 0 two_handles refl

-- The file of the tests of Content.antt, open for writing
abbrev out_file : File
out_file = record zero_file { type = fd_inode; ref = 1; writable = true; ip = 2; off = 90 }

abbrev inodes : Layers
inodes = of_inode no_devices (λ a. a) (λ _ _ _ s. (s, pos 0)) (λ _ _ _ s. (s, pos 0))

ten_free : 10 ≤ free_blocks fs.blocks
unfolding free_count bit_at
ten_free = omega arith

-- 2000 bytes take two transactions.
filewrite_lem_example :
    (u : Store) × (filewrite inodes out_file 100 (pos 2000) (one_block, fs)
      ≡ ok (u, record out_file { off = 2090 }, pos 2000))
    × ((j : ℕ)
        → j < max_bytes
        → file_byte u.0 u.1 j ≡ overwritten inodes 100 90 2000 (file_byte one_block fs) j)
filewrite_lem_example =
    filewrite_lem inodes out_file 100 2000 (one_block, fs) refl refl one_block-IsFile (omega arith)
      (omega arith) ten_free
