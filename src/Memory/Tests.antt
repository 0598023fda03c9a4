-- ===== src/Memory/Tests.antt =====
-- Blocks of a small memory.
use cs.Base.{ℕ, ◌+◌, ◌≡◌, refl, negsuc, if◌then◌else◌, leb, ltb, ◌&&◌, ◌-◌}
use cs.Memory.{
  memmove, copy_up, copy_down, memset, stosb, stosl, store, strncmp, strncpy, zero_rest,
}
use cs.Memory.Move.{memmove_lem}

abbrev identity : ℕ → ℕ
identity a = a

overlap_up : memmove 3 2 4 identity 6 ≡ 5
unfolding memmove copy_up copy_down
overlap_up = refl

set_words : memset 8 263 8 identity 15 ≡ 7
unfolding memset stosb stosl store
set_words = refl

copied_short : strncpy 20 0 4 identity 22 ≡ 0
unfolding strncpy zero_rest
copied_short = refl

less : strncmp identity 3 5 2 ≡ negsuc 1
unfolding strncmp
less = refl

memmove_lem_example :
    memmove 3 2 4 identity 6
    ≡ (if leb 3 6 && ltb 6 (3 + 4) then identity (2 + (6 - 3)) else identity 6)
memmove_lem_example = memmove_lem 3 2 4 identity 6
