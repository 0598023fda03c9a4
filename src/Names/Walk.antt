-- ===== src/Names/Walk.antt =====
-- `namex` finds what a walk over the elements of the path finds.
use cs.Base.{
  ℕ, zero, suc, ◌+◌, ◌≤◌, ◌<◌, ◌≡◌, ◌≢◌, inl, inr, refl, true, false, List, [], ◌∷◌, Option, none,
  some, if◌then◌else◌, take, length, arith, Bool-cases,
}
use cs.Directory.{dirsiz, dirlookup}
use cs.Names.{
  Text, skip_slashes, skipelem, Tree, found_inode, Walked, go_on, is_end, round, walk,
  starts_at_root, namex, namei, nameiparent, put, lock, unlock,
}
use cs.Names.Elements.{elements, elements-nil, elements-ne-nil, TakesElement, skipelem-TakesElement}

abbrev pub lookup_in : Tree → ℕ → Text → Option ℕ
lookup_in t ip e = found_inode (dirlookup (t.entries ip) (take dirsiz e))

abbrev pub then_from {ℓ} : {A : Type ℓ} → (ℕ → Option A) → Option ℕ → Option A
then_from f none = none
then_from f (some ip) = f ip

-- The inode that a list of elements leads to.
pub resolve : Tree → ℕ → List Text → Option ℕ
resolve t ip [] = some ip
resolve t ip (e ∷ es) =
    if t.is_dir ip then then_from (λ next. resolve t next es) (lookup_in t ip e) else none

-- The directory of the last element, and its name.
pub resolve_parent : Tree → ℕ → List Text → Option (ℕ × Text)
resolve_parent t ip [] = none
resolve_parent t ip (e ∷ []) = if t.is_dir ip then some (ip, take dirsiz e) else none
resolve_parent t ip (e ∷ f ∷ es) =
    if t.is_dir ip
    then then_from (λ next. resolve_parent t next (f ∷ es)) (lookup_in t ip e)
    else none

abbrev pub inode_of : Option (ℕ × Text) → Option ℕ
inode_of none = none
inode_of (some (ip, name)) = some ip

go_on-resolve {ℓ} :
    {A : Type ℓ} (view : Option (ℕ × Text) → Option A) (loop : ℕ → Walked) (f : ℕ → Option A)
    (ip : ℕ)
    → view none ≡ none
    → ((next : ℕ) → view (loop next).1 ≡ f next)
    → (o : Option ℕ) → view (go_on loop ip o).1 ≡ then_from f o
go_on-resolve view loop f ip hv h none = hv
go_on-resolve view loop f ip hv h (some next) = h next

round-resolve :
    (fuel : ℕ) (t : Tree) (path : Text) (ip : ℕ) (name : Text) (o : Option (Text × Text))
    → TakesElement path o
    → length path ≤ fuel
    → ((rest : Text) (next : ℕ) (name' : Text)
        → length rest < fuel
        → inode_of (walk fuel t false rest next name').1 ≡ resolve t next (elements rest))
    → inode_of (round t false (walk fuel t false) ip name o).1 ≡ resolve t ip (elements path)
unfolding resolve
round-resolve fuel t path ip name none h lt ih = rw h refl
round-resolve fuel t path ip name (some (elem, rest)) ((e, he, hn), shorter, bare) lt ih =
    elim (Bool-cases (t.is_dir ip)) [
      | inl d ↦
          rw (d, he, d, hn)
            (go_on-resolve inode_of (λ next. walk fuel t false rest next (take dirsiz e))
              (λ next. resolve t next (elements rest)) ip refl
              (λ next. ih rest next (take dirsiz e) (omega arith))
              (found_inode (dirlookup (t.entries ip) (take dirsiz e))))
      | inr d ↦ rw (d, he, d) refl
    ]

walk-resolve :
    (fuel : ℕ) (t : Tree) (path : Text) (ip : ℕ) (name : Text)
    → length path < fuel
    → inode_of (walk fuel t false path ip name).1 ≡ resolve t ip (elements path)
unfolding walk
walk-resolve zero t path ip name lt = absurd (omega arith)
walk-resolve (suc fuel) t path ip name lt =
    round-resolve fuel t path ip name (skipelem path) (skipelem-TakesElement path) (omega arith)
      (λ rest next name' l. walk-resolve fuel t rest next name' l)

-- `namei` finds the inode that the elements of the path lead to, from the root if the path starts
-- with a slash and from the process's directory if not: each element is looked up in a directory,
-- by its first 14 characters.
pub namei-resolve :
    (t : Tree) (root cwd : ℕ) (path : Text)
    → inode_of (namei t root cwd path).1
      ≡ resolve t (if starts_at_root path then root else cwd) (elements path)
unfolding namei namex
namei-resolve t root cwd path =
    walk-resolve (length path + 1) t path (if starts_at_root path then root else cwd) []
      (omega arith)

abbrev parent_of : Tree → (ℕ → Walked) → ℕ → Text → Text → Walked
parent_of t loop ip elem rest =
    if t.is_dir ip
    then (if is_end rest
        then (lock ip ∷ unlock ip ∷ [], some (ip, elem))
        else go_on loop ip (found_inode (dirlookup (t.entries ip) elem)))
    else (lock ip ∷ unlock ip ∷ put ip ∷ [], none)

deeper-resolve_parent :
    (t : Tree) (ip : ℕ) (e : Text) (es : List Text) (loop : ℕ → Walked) (c : ℕ) (s : Text)
    → es ≢ []
    → ((next : ℕ) → (loop next).1 ≡ resolve_parent t next es)
    → (parent_of t loop ip (take dirsiz e) (c ∷ s)).1 ≡ resolve_parent t ip (e ∷ es)
unfolding resolve_parent
deeper-resolve_parent t ip e [] loop c s ne ih = absurd (ne refl)
deeper-resolve_parent t ip e (f ∷ es) loop c s ne ih = elim (Bool-cases (t.is_dir ip)) [
  | inl d ↦ rw d (
      go_on-resolve (λ r. r) loop (λ next. resolve_parent t next (f ∷ es)) ip refl ih
        (found_inode (dirlookup (t.entries ip) (take dirsiz e))))
  | inr d ↦ rw d refl
]

-- The parent's round, where the path after the element is `rest`.
parent_of-resolve_parent :
    (fuel : ℕ) (t : Tree) (ip : ℕ) (e rest : Text) (loop : ℕ → Walked)
    → skip_slashes rest ≡ rest
    → ((next : ℕ) → (loop next).1 ≡ resolve_parent t next (elements rest))
    → (parent_of t loop ip (take dirsiz e) rest).1 ≡ resolve_parent t ip (e ∷ elements rest)
unfolding resolve_parent
parent_of-resolve_parent fuel t ip e [] loop bare ih = elim (Bool-cases (t.is_dir ip)) [
  | inl d ↦ rw (d, elements-nil, d) refl
  | inr d ↦ rw (d, elements-nil, d) refl
]
parent_of-resolve_parent fuel t ip e (c ∷ s) loop bare ih =
    deeper-resolve_parent t ip e (elements (c ∷ s)) loop c s (elements-ne-nil c s bare) ih

round-resolve_parent :
    (fuel : ℕ) (t : Tree) (path : Text) (ip : ℕ) (name : Text) (o : Option (Text × Text))
    → TakesElement path o
    → length path ≤ fuel
    → ((rest : Text) (next : ℕ) (name' : Text)
        → length rest < fuel
        → (walk fuel t true rest next name').1 ≡ resolve_parent t next (elements rest))
    → (round t true (walk fuel t true) ip name o).1 ≡ resolve_parent t ip (elements path)
round-resolve_parent fuel t path ip name none h lt ih = rw h (unfold resolve_parent in refl)
round-resolve_parent fuel t path ip name (some (elem, rest)) ((e, he, hn), shorter, bare) lt ih =
    rw (he, hn)
      (parent_of-resolve_parent fuel t ip e rest
        (λ next. walk fuel t true rest next (take dirsiz e)) bare
        (λ next. ih rest next (take dirsiz e) (omega arith)))

walk-resolve_parent :
    (fuel : ℕ) (t : Tree) (path : Text) (ip : ℕ) (name : Text)
    → length path < fuel
    → (walk fuel t true path ip name).1 ≡ resolve_parent t ip (elements path)
unfolding walk
walk-resolve_parent zero t path ip name lt = absurd (omega arith)
walk-resolve_parent (suc fuel) t path ip name lt =
    round-resolve_parent fuel t path ip name (skipelem path) (skipelem-TakesElement path)
      (omega arith) (λ rest next name' l. walk-resolve_parent fuel t rest next name' l)

-- `nameiparent` finds the directory that all elements but the last lead to, and the last element's
-- first 14 characters; there is nothing to find for a path without elements.
pub nameiparent-resolve_parent :
    (t : Tree) (root cwd : ℕ) (path : Text)
    → (nameiparent t root cwd path).1
      ≡ resolve_parent t (if starts_at_root path then root else cwd) (elements path)
unfolding nameiparent namex
nameiparent-resolve_parent t root cwd path =
    walk-resolve_parent (length path + 1) t path (if starts_at_root path then root else cwd) []
      (omega arith)
