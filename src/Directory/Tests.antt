-- ===== src/Directory/Tests.antt =====
-- A directory with an empty place.
use cs.Base.{◌≡◌, refl, List, [], ◌∷◌, some}
use cs.Directory.{Dirent, dirlookup, lookup_from, same_name, same_text, dirlink, put_entry}

abbrev entries : List Dirent
entries =
    record { inum = 1; name = b'.' ∷ [] }
    ∷ record { inum = 0; name = b'x' ∷ [] }
    ∷ record { inum = 7; name = b'y' ∷ [] }
    ∷ []

found : dirlookup entries (b'y' ∷ []) ≡ some (2, 7)
unfolding dirlookup lookup_from same_name same_text
found = refl

linked :
    dirlink entries (b'x' ∷ []) 9
    ≡ some (
        record { inum = 1; name = b'.' ∷ [] }
        ∷ record { inum = 9; name = b'x' ∷ [] }
        ∷ record { inum = 7; name = b'y' ∷ [] }
        ∷ [])
unfolding dirlink put_entry dirlookup lookup_from same_name same_text
linked = refl
