-- ===== src/Grep.antt =====
-- HW2/src/grep.c: the matcher of regular expressions with ^ . * $, and the loop over the lines of a
-- file. A text stands for its characters before the nul.
pub mod Pattern
pub mod Match
mod Tests
use cs.Base.{ℕ, zero, suc, Bool, true, false, ◌&&◌, ◌||◌, List, [], ◌∷◌, ◌==◌, if◌then◌else◌}

abbrev pub Text : Type 0
Text = List ℕ

abbrev pub is_nil : Text → Bool
is_nil [] = true
is_nil (x ∷ xs) = false

-- `matchstar`, with `here` for `matchhere` of the rest of the expression
pub matchstar : (Text → Bool) → ℕ → Text → Bool
matchstar here c [] = here []
matchstar here c (x ∷ text) =
    let rest = matchstar here c text in
    if here (x ∷ text) then true else if x == c || c == b'.' then rest else false

-- The last two tests of `matchhere`, with `here` for `matchhere(re+1, ...)`
abbrev pub match_one : (Text → Bool) → ℕ → Text → Text → Bool
match_one here c re [] = c == b'$' && is_nil re
match_one here c re (x ∷ text) =
    if c == b'$' && is_nil re then false else if c == b'.' || c == x then here text else false

pub matchhere : Text → Text → Bool
matchhere [] text = true
matchhere (c ∷ []) text = match_one (matchhere []) c [] text
matchhere (c ∷ d ∷ re) text =
    let starred = matchstar (matchhere re) c text in
    let plain = match_one (matchhere (d ∷ re)) c (d ∷ re) text in
    if d == b'*' then starred else plain

-- The loop of `match`, which looks at the empty end of the text too.
pub match_from : Text → Text → Bool
match_from re [] = matchhere re []
match_from re (x ∷ text) =
    let rest = match_from re text in if matchhere re (x ∷ text) then true else rest

pub match : Text → Text → Bool
match [] text = match_from [] text
match (c ∷ re) text = if c == b'^' then matchhere re text else match_from (c ∷ re) text
