-- ===== src/Names.antt =====
-- HW2/src/fs.c: path names. Inodes are numbers, and their directories are those of Directory; what
-- is called of the inode layer is listed in order.
pub mod Elements
pub mod Walk
pub mod Balance
mod Tests
use cs.Base.{
  ℕ, zero, suc, ◌+◌, Bool, true, false, ◌&&◌, List, [], ◌∷◌, ◌++◌, Option, none, some, ◌==◌,
  if◌then◌else◌, take, length,
}
use cs.Directory.{dirsiz, Dirent, dirlookup}

abbrev pub Text : Type 0
Text = List ℕ

abbrev pub slash : ℕ
slash = 47

-- `while(*path == '/') path++;`
pub skip_slashes : Text → Text
skip_slashes [] = []
skip_slashes (c ∷ s) = let rest = skip_slashes s in if c == slash then rest else c ∷ s

-- `while(*path != '/' && *path != 0) path++;`: what is passed over, and what is left.
pub element : Text → Text
element [] = []
element (c ∷ s) = let rest = element s in if c == slash then [] else c ∷ rest

pub after : Text → Text
after [] = []
after (c ∷ s) = let rest = after s in if c == slash then c ∷ s else rest

abbrev pub first_element : Text → Option (Text × Text)
first_element [] = none
first_element (c ∷ s) = some (take dirsiz (element (c ∷ s)), skip_slashes (after (c ∷ s)))

-- The name, of at most `dirsiz` characters, and the path after it.
pub skipelem : Text → Option (Text × Text)
skipelem path = first_element (skip_slashes path)

-- Calls of the inode layer. `dirlookup` gets the inode that it finds.
pub data Call : Type 0 where
  get put lock unlock : ℕ → Call

-- Directories: which inodes are, and their entries.
pub record Tree : Type 0 where
  pub is_dir : ℕ → Bool
  pub entries : ℕ → List Dirent

abbrev pub found_inode : Option (ℕ × ℕ) → Option ℕ
found_inode none = none
found_inode (some (i, inum)) = some inum

abbrev pub Walked : Type 0
Walked = List Call × Option (ℕ × Text)

abbrev pub after_calls : List Call → Walked → Walked
after_calls cs (ds, r) = (cs ++ ds, r)

-- The rest of a round of the loop, with what `dirlookup` finds.
abbrev pub go_on : (ℕ → Walked) → ℕ → Option ℕ → Walked
go_on loop ip none = (lock ip ∷ unlock ip ∷ put ip ∷ [], none)
go_on loop ip (some next) = after_calls (lock ip ∷ get next ∷ unlock ip ∷ put ip ∷ []) (loop next)

abbrev pub is_end : Text → Bool
is_end [] = true
is_end (c ∷ s) = false

abbrev pub round :
    Tree → Bool → (Text → ℕ → Text → Walked) → ℕ → Text → Option (Text × Text) → Walked
round t parent loop ip name none = if parent then (put ip ∷ [], none) else ([], some (ip, name))
round t parent loop ip name (some (elem, rest)) =
    if t.is_dir ip
    then (if parent && is_end rest
        then (lock ip ∷ unlock ip ∷ [], some (ip, elem))
        else go_on (λ next. loop rest next elem) ip (found_inode (dirlookup (t.entries ip) elem)))
    else (lock ip ∷ unlock ip ∷ put ip ∷ [], none)

-- The loop of `namex` on fuel: the calls, and the inode and `name`.
pub walk : ℕ → Tree → Bool → Text → ℕ → Text → Walked
walk zero t parent path ip name = ([], none)
walk (suc fuel) t parent path ip name = round t parent (walk fuel t parent) ip name (skipelem path)

abbrev pub starts_at_root : Text → Bool
starts_at_root [] = false
starts_at_root (c ∷ s) = c == slash

-- `root` is the root directory's inode, `cwd` the process's. Each round of the loop takes a
-- character at least.
pub namex : Tree → ℕ → ℕ → Bool → Text → Walked
namex t root cwd parent path =
    let start = if starts_at_root path then root else cwd in
    after_calls (get start ∷ []) (walk (length path + 1) t parent path start [])

pub namei : Tree → ℕ → ℕ → Text → Walked
namei t root cwd path = namex t root cwd false path

pub nameiparent : Tree → ℕ → ℕ → Text → Walked
nameiparent t root cwd path = namex t root cwd true path
