-- ===== src/Names/Balance.antt =====
-- What a path lookup holds when it ends.
use cs.Base.{
  ℕ, zero, suc, ◌+◌, ◌<◌, ◌≡◌, inl, inr, Bool, true, false, ◌&&◌, List, [], ◌∷◌, Option, none, some,
  ◌==◌, if◌then◌else◌, length, arith, Bool-cases,
}
use cs.Directory.{dirlookup}
use cs.Names.Elements.{TakesElement, skipelem-TakesElement}
use cs.Names.{
  Text, skipelem, Tree, found_inode, Walked, go_on, is_end, round, walk, starts_at_root, namex,
  Call, get, put, lock, unlock,
}

-- References to an inode, and locks of it, after some calls: gets less puts, and locks less unlocks,
-- as a number of each kind that must agree.
pub record Counts : Type 0 where
  pub gets : ℕ
  pub puts : ℕ
  pub locks : ℕ
  pub unlocks : ℕ

abbrev pub tally : ℕ → ℕ → ℕ
tally i j = if i == j then 1 else 0

pub count_calls : ℕ → List Call → Counts
count_calls i [] = record { gets = 0; puts = 0; locks = 0; unlocks = 0 }
count_calls i (get j ∷ cs) = let n = count_calls i cs in record n { gets = n.gets + tally i j }
count_calls i (put j ∷ cs) = let n = count_calls i cs in record n { puts = n.puts + tally i j }
count_calls i (lock j ∷ cs) = let n = count_calls i cs in record n { locks = n.locks + tally i j }
count_calls i (unlock j ∷ cs) =
    let n = count_calls i cs in record n { unlocks = n.unlocks + tally i j }

abbrev pub holds : ℕ → Option (ℕ × Text) → ℕ
holds i none = 0
holds i (some (ip, name)) = tally i ip

-- Starting with a reference to `ip`, the calls end with a reference to the result alone, and with no
-- lock.
abbrev pub Balanced : ℕ → ℕ → Walked → Type 0
Balanced i held (cs, r) =
    (held + (count_calls i cs).gets ≡ (count_calls i cs).puts + holds i r)
    × ((count_calls i cs).locks ≡ (count_calls i cs).unlocks)

go_on-Balanced :
    (i ip : ℕ) (loop : ℕ → Walked) (o : Option ℕ)
    → ((next : ℕ) → Balanced i (tally i next) (loop next))
    → Balanced i (tally i ip) (go_on loop ip o)
unfolding count_calls
go_on-Balanced i ip loop none h = (omega arith, omega arith)
go_on-Balanced i ip loop (some next) h = let (refs, locks) = h next in (omega arith, omega arith)

round-Balanced :
    (i : ℕ) (t : Tree) (parent : Bool) (loop : Text → ℕ → Text → Walked) (ip : ℕ) (name path : Text)
    (o : Option (Text × Text))
    → TakesElement path o
    → ((rest : Text) (next : ℕ) (name' : Text)
        → length rest < length path
        → Balanced i (tally i next) (loop rest next name'))
    → Balanced i (tally i ip) (round t parent loop ip name o)
unfolding count_calls
round-Balanced i t true loop ip name path none e h = (omega arith, omega arith)
round-Balanced i t false loop ip name path none e h = (omega arith, omega arith)
round-Balanced i t parent loop ip name path (some (elem, rest)) (e, shorter, bare) h =
    elim (Bool-cases (t.is_dir ip)) [
      | inl d ↦ elim (Bool-cases (parent && is_end rest)) [
        | inl p ↦ rw (d, p) (omega arith, omega arith)
        | inr p ↦
            rw (d, p)
              (go_on-Balanced i ip (λ next. loop rest next elem)
                (found_inode (dirlookup (t.entries ip) elem)) (λ next. h rest next elem shorter))
      ]
      | inr d ↦ rw d (omega arith, omega arith)
    ]

walk-Balanced :
    (i fuel : ℕ) (t : Tree) (parent : Bool) (path : Text) (ip : ℕ) (name : Text)
    → length path < fuel
    → Balanced i (tally i ip) (walk fuel t parent path ip name)
unfolding walk
walk-Balanced i zero t parent path ip name lt = absurd (omega arith)
walk-Balanced i (suc fuel) t parent path ip name lt =
    round-Balanced i t parent (walk fuel t parent) ip name path (skipelem path)
      (skipelem-TakesElement path)
      (λ rest next name' l. walk-Balanced i fuel t parent rest next name' (omega arith))

-- A path lookup ends with one reference more to the inode that it returns, if it does, and as many
-- as before to every other inode, and unlocks as often as it locks.
pub namex-Balanced :
    (t : Tree) (root cwd : ℕ) (parent : Bool) (path : Text) (i : ℕ)
    → Balanced i 0 (namex t root cwd parent path)
unfolding namex count_calls
namex-Balanced t root cwd parent path i =
    let start = if starts_at_root path then root else cwd in
    let (refs, locks) = walk-Balanced i (length path + 1) t parent path start [] (omega arith) in
    (omega arith, omega arith)
