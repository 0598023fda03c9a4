-- ===== src/Grep/Tests.antt =====
-- Expressions at work.
use cs.Base.{ℕ, ◌≡◌, ◌↔◌, refl, true, false, List, [], ◌∷◌}
use cs.Grep.{match, match_from, matchhere, matchstar}
use cs.Grep.Match.{Fits, match_iff}

-- ^ab*c$
abbrev ab_star_c : List ℕ
ab_star_c = b'^' ∷ b'a' ∷ b'b' ∷ b'*' ∷ b'c' ∷ b'$' ∷ []

accepted : match ab_star_c (b'a' ∷ b'b' ∷ b'b' ∷ b'c' ∷ []) ≡ true
unfolding match match_from matchhere matchstar
accepted = refl

too_long : match ab_star_c (b'a' ∷ b'c' ∷ b'c' ∷ []) ≡ false
unfolding match match_from matchhere matchstar
too_long = refl

match_iff_example :
    (match ab_star_c (b'a' ∷ b'b' ∷ b'c' ∷ []) ≡ true) ↔ Fits ab_star_c (b'a' ∷ b'b' ∷ b'c' ∷ [])
match_iff_example = match_iff ab_star_c (b'a' ∷ b'b' ∷ b'c' ∷ [])
