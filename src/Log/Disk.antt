-- ===== src/Log/Disk.antt =====
-- Writes of blocks and of the words of the header.
use cs.Base.{
  update, update_ne, update_self, ℕ_discrete, ℕ, zero, suc, ◌+◌, ◌≤◌, ◌<◌, ◌≡◌, refl, ◌∙◌, List,
  arith, length, get_or, set, length-set, get_or-set_self, get_or-set_ne,
}
use cs.Log.{Block, write_entries, read_entries}

-- The words outside the entries written stay.
pub write_entries_frame :
    (block : List ℕ) (k i : ℕ) (hb : Block) (w : ℕ) → w ≤ i → write_entries block k i hb w ≡ hb w
unfolding write_entries
write_entries_frame block zero i hb w h = refl
write_entries_frame block (suc k) i hb w h =
    write_entries_frame block k (i + 1) (update hb (i + 1) (get_or block i 0)) w (omega arith)
    ∙ update_ne hb (i + 1) w (get_or block i 0) (omega arith)

pub write_entries_lem :
    (block : List ℕ) (k i : ℕ) (hb : Block) (j : ℕ)
    → i ≤ j
    → j < i + k
    → write_entries block k i hb (j + 1) ≡ get_or block j 0
unfolding write_entries
write_entries_lem block zero i hb j lo hi = absurd (omega arith)
write_entries_lem block (suc k) i hb j lo hi = elim (ℕ_discrete i j) [
  | yes e ↦ rw (← e) (
      write_entries_frame block k (i + 1) (update hb (i + 1) (get_or block i 0)) (i + 1)
        (omega arith)
      ∙ update_self hb (i + 1) (get_or block i 0))
  | no e ↦
      write_entries_lem block k (i + 1) (update hb (i + 1) (get_or block i 0)) j (omega arith)
        (omega arith)
]

pub length-read_entries :
    (hb : Block) (k i : ℕ) (block : List ℕ) → length (read_entries hb k i block) ≡ length block
unfolding read_entries
length-read_entries hb zero i block = refl
length-read_entries hb (suc k) i block =
    length-read_entries hb k (i + 1) (set block i (hb (i + 1))) ∙ length-set block i (hb (i + 1))

read_entries_frame :
    (hb : Block) (k i : ℕ) (block : List ℕ) (j : ℕ)
    → j < i
    → get_or (read_entries hb k i block) j 0 ≡ get_or block j 0
unfolding read_entries
read_entries_frame hb zero i block j h = refl
read_entries_frame hb (suc k) i block j h =
    read_entries_frame hb k (i + 1) (set block i (hb (i + 1))) j (omega arith)
    ∙ get_or-set_ne block i j (hb (i + 1)) 0 (omega arith)

pub read_entries_lem :
    (hb : Block) (k i : ℕ) (block : List ℕ) (j : ℕ)
    → i + k ≤ length block
    → i ≤ j
    → j < i + k
    → get_or (read_entries hb k i block) j 0 ≡ hb (j + 1)
unfolding read_entries
read_entries_lem hb zero i block j len lo hi = absurd (omega arith)
read_entries_lem hb (suc k) i block j len lo hi = elim (ℕ_discrete i j) [
  | yes e ↦ rw (← e) (
      read_entries_frame hb k (i + 1) (set block i (hb (i + 1))) i (omega arith)
      ∙ get_or-set_self block i (hb (i + 1)) 0 (omega arith))
  | no e ↦
      read_entries_lem hb k (i + 1) (set block i (hb (i + 1))) j
        (omega (arith, length-set block i (hb (i + 1)))) (omega arith) (omega arith)
]
