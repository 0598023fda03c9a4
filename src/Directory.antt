-- ===== src/Directory.antt =====
-- HW2/src/fs.c: directories, as the list of the entries that `readi` and `writei` see in their
-- contents. A name stands for its characters before a nul, at most `dirsiz` of them.
pub mod Lookup
mod Tests
use cs.Base.{
  ℕ, zero, suc, ◌+◌, ◌%◌, ◌^◌, Bool, true, false, List, [], ◌∷◌, Option, none, some, ◌==◌,
  if◌then◌else◌, take,
}

abbrev pub dirsiz : ℕ
dirsiz = 14

-- `struct dirent`
pub record Dirent : Type 0 where
  pub inum : ℕ
  pub name : List ℕ

-- Whether `strncmp` of two texts and `n` is 0
pub same_text : ℕ → List ℕ → List ℕ → Bool
same_text zero s t = true
same_text (suc n) [] [] = true
same_text (suc n) [] (d ∷ t) = false
same_text (suc n) (c ∷ s) [] = false
same_text (suc n) (c ∷ s) (d ∷ t) = let rest = same_text n s t in if c == d then rest else false

-- Whether `namecmp` is 0
pub same_name : List ℕ → List ℕ → Bool
same_name s t = same_text dirsiz s t

-- The loop of `dirlookup` from entry `i` on: the number of the entry and its inode. The offset of
-- an entry is 16 times its number.
pub lookup_from : List ℕ → ℕ → List Dirent → Option (ℕ × ℕ)
lookup_from name i [] = none
lookup_from name i (e ∷ es) =
    let rest = lookup_from name (i + 1) es in
    if e.inum == 0 then rest else if same_name name e.name then some (i, e.inum) else rest

pub dirlookup : List Dirent → List ℕ → Option (ℕ × ℕ)
dirlookup es name = lookup_from name 0 es

-- The second loop of `dirlink` and its `writei`: the entry goes to the first empty place.
pub put_entry : Dirent → List Dirent → List Dirent
put_entry new [] = new ∷ []
put_entry new (e ∷ es) = let rest = put_entry new es in if e.inum == 0 then new ∷ es else e ∷ rest

abbrev pub link_if : Dirent → List Dirent → Option (ℕ × ℕ) → Option (List Dirent)
link_if new es none = some (put_entry new es)
link_if new es (some found) = none

-- The new contents, or -1. `de.inum` is a `ushort`.
pub dirlink : List Dirent → List ℕ → ℕ → Option (List Dirent)
dirlink es name inum =
    link_if (record { inum = inum % 2 ^ 16; name = take dirsiz name }) es (dirlookup es name)
