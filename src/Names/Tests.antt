-- ===== src/Names/Tests.antt =====
-- A tree with the directories 1 and 2, and a file 5 at /a/bb.
use cs.Base.{ℕ, ◌≡◌, refl, false, List, [], ◌∷◌, some, ◌==◌, ◌||◌, if◌then◌else◌}
use cs.Names.{Tree, skipelem, skip_slashes, element, after, namei, namex}
use cs.Names.Elements.{elements}
use cs.Names.Walk.{resolve, inode_of, namei-resolve}
use cs.Names.Balance.{Balanced, namex-Balanced}

abbrev tree : Tree
tree = record {
  is_dir = λ i. i == 1 || i == 2;
  entries = λ i.
      if i == 1
      then record { inum = 2; name = b'a' ∷ [] } ∷ []
      else record { inum = 5; name = b'b' ∷ b'b' ∷ [] } ∷ [];
}

-- /a//bb
abbrev path : List ℕ
path = b'/' ∷ b'a' ∷ b'/' ∷ b'/' ∷ b'b' ∷ b'b' ∷ []

skipped : skipelem path ≡ some (b'a' ∷ [], b'b' ∷ b'b' ∷ [])
unfolding skipelem skip_slashes element after
skipped = refl

namei-resolve_example : inode_of (namei tree 1 2 path).1 ≡ resolve tree 1 (elements path)
namei-resolve_example = namei-resolve tree 1 2 path

namex-Balanced_example : Balanced 5 0 (namex tree 1 2 false path)
namex-Balanced_example = namex-Balanced tree 1 2 false path 5
