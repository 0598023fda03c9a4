-- ===== src/Grep/Pattern.antt =====
-- What a regular expression means, without an order of search.
use cs.Base.{ℕ, ◌≡◌, ◌⊎◌, List, [], ◌∷◌, ◌==◌, if◌then◌else◌}
use cs.Grep.{Text}

-- A character of the text at hand, any number of them, or the end of the text.
pub data Item : Type 0 where
  one star : ℕ → Item
  at_end : Item

-- The items that an expression after its `^` spells: `*` after a character, and `$` at the end.
unfoldable pub parse : Text → List Item
parse [] = []
parse (c ∷ []) = if c == b'$' then at_end ∷ [] else one c ∷ []
parse (c ∷ d ∷ re) =
    let starred = star c ∷ parse re in
    let plain = one c ∷ parse (d ∷ re) in if d == b'*' then starred else plain

abbrev pub Accepts : ℕ → ℕ → Type 0
Accepts c x = (c ≡ b'.') ⊎ (c ≡ x)

-- The items match a beginning of the text.
pub data Begins : List Item → Text → Type 0 where
  nothing : {text : Text} → Begins [] text
  char :
      {c x : ℕ} {re : List Item} {text : Text}
      → Accepts c x
      → Begins re text
      → Begins (one c ∷ re) (x ∷ text)
  none_of : {c : ℕ} {re : List Item} {text : Text} → Begins re text → Begins (star c ∷ re) text
  one_of :
      {c x : ℕ} {re : List Item} {text : Text}
      → Accepts c x
      → Begins (star c ∷ re) text
      → Begins (star c ∷ re) (x ∷ text)
  ends : Begins (at_end ∷ []) []

-- The items match from some place of the text on.
pub data Occurs (re : List Item) : Text → Type 0 where
  now : {text : Text} → Begins re text → Occurs re text
  later : {x : ℕ} {text : Text} → Occurs re text → Occurs re (x ∷ text)
