-- ===== src/Directory/Lookup.antt =====
-- `dirlookup` finds what `dirlink` enters, and nothing else changes.
use cs.Base.{ℕ, zero, suc, ◌≡◌, refl, true, List, [], ◌∷◌, Option, none, some, if◌then◌else◌, arith}
use cs.Directory.{Dirent, same_text, same_name, lookup_from, dirlookup}

same_text_refl : (n : ℕ) (s : List ℕ) → same_text n s s ≡ true
unfolding same_text
same_text_refl zero s = refl
same_text_refl (suc n) [] = refl
same_text_refl (suc n) (c ∷ s) = ground (arith, same_text_refl n s)

-- Only the inode of what a lookup finds.
abbrev pub inode_of : Option (ℕ × ℕ) → Option ℕ
inode_of none = none
inode_of (some (i, inum)) = some inum

abbrev pub inode_at : List Dirent → List ℕ → Option ℕ
inode_at es name = inode_of (dirlookup es name)

-- The inode that a lookup from any number finds.
inode_from : List ℕ → ℕ → List Dirent → Option ℕ
inode_from name i es = inode_of (lookup_from name i es)

-- What a `dirlink` of `name` makes of the lookups.
abbrev pub Links : List Dirent → List ℕ → ℕ → Option (List Dirent) → Type 0
Links es name inum none = (inum' : ℕ) × (inode_at es name ≡ some inum')
Links es name inum (some es') =
    (inode_at es name ≡ none)
    × ((q : List ℕ) → inode_at es' q ≡ (if same_name q name then some inum else inode_at es q))
