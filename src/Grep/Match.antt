-- ===== src/Grep/Match.antt =====
-- `match` decides whether the expression occurs in the text.
use cs.Base.{
  ℕ, ◌≡◌, ◌↔◌, ◌⊎◌, inl, inr, refl, Bool, true, false, ◌&&◌, ◌||◌, List, [], ◌∷◌, ◌==◌,
  if◌then◌else◌, arith, Bool-cases,
}
use cs.Grep.{Text, is_nil, matchstar, match_one, matchhere, match_from, match}
use cs.Grep.Pattern.{
  Item, one, star, at_end, parse, Accepts, Begins, nothing, char, none_of, one_of, ends, Occurs,
  now, later,
}

-- A test of the beginning of a text that decides `P`.
abbrev Decides : (Text → Type 0) → (Text → Bool) → Type 0
Decides P test = (text : Text) → (test text ≡ true) ↔ P text

one_inv :
    {c x : ℕ} {re : List Item} {text : Text}
    → Begins (one c ∷ re) (x ∷ text)
    → Accepts c x × Begins re text
one_inv (char a b) = (a, b)

star_inv :
    {c x : ℕ} {re : List Item} {text : Text}
    → Begins (star c ∷ re) (x ∷ text)
    → Begins re (x ∷ text) ⊎ (Accepts c x × Begins (star c ∷ re) text)
star_inv (none_of b) = inl b
star_inv (one_of a b) = inr (a, b)

star_nil : {c : ℕ} {re : List Item} → Begins (star c ∷ re) [] → Begins re []
star_nil (none_of b) = b

matchstar-Decides :
    (here : Text → Bool) (c : ℕ) (re : List Item)
    → Decides (Begins re) here
    → Decides (Begins (star c ∷ re)) (matchstar here c)
unfolding matchstar
matchstar-Decides here c re h [] = (λ e. none_of ((h []).0 e), λ b. (h []).1 (star_nil b))
matchstar-Decides here c re h (x ∷ text) =
    let ih = matchstar-Decides here c re h text in
    elim (Bool-cases (here (x ∷ text))) [
      | inl e ↦ rw e (λ _. none_of ((h (x ∷ text)).0 e), λ _. refl)
      | inr e ↦ elim (Bool-cases (x == c || c == b'.')) [
        | inl a ↦
            rw (e, a)
              (
                λ m. one_of (ground arith) (ih.0 m),
                λ b. elim (star_inv b) [
                  | inl begun ↦ let found = (h (x ∷ text)).1 begun in cc
                  | inr more ↦ ih.1 more.1
                ],
              )
        | inr a ↦
            rw (e, a)
              (
                λ m. cc,
                λ b. elim (star_inv b) [
                  | inl begun ↦ let found = (h (x ∷ text)).1 begun in cc
                  | inr more ↦ let accepted = more.0 in absurd (ground arith)
                ],
              )
      ]
    ]

end_inv : {x : ℕ} {text : Text} → Begins (at_end ∷ []) (x ∷ text) → ⊥
end_inv b = elim b [ ]

one_nil : {c : ℕ} {re : List Item} → Begins (one c ∷ re) [] → ⊥
one_nil b = elim b [ ]

match_one-Decides :
    (here : Text → Bool) (c : ℕ) (re : Text) (items : List Item)
    → c == b'$' && is_nil re ≡ false
    → Decides (Begins items) here
    → Decides (Begins (one c ∷ items)) (match_one here c re)
match_one-Decides here c re items e h [] = rw e (λ m. cc, λ b. absurd (one_nil b))
match_one-Decides here c re items e h (x ∷ text) = elim (Bool-cases (c == b'.' || c == x)) [
  | inl a ↦ rw (e, a) (λ m. char (ground arith) ((h text).0 m), λ b. (h text).1 (one_inv b).1)
  | inr a ↦ rw (e, a) (λ m. cc, λ b. let accepted = (one_inv b).0 in absurd (ground arith))
]

match_end-Decides :
    (here : Text → Bool) (c : ℕ)
    → c == b'$' ≡ true
    → Decides (Begins (at_end ∷ [])) (match_one here c [])
match_end-Decides here c e [] = rw e (λ _. ends, λ _. refl)
match_end-Decides here c e (x ∷ text) = rw e (λ m. cc, λ b. absurd (end_inv b))

matchhere_nil : Decides (Begins []) (matchhere [])
unfolding matchhere
matchhere_nil text = (λ _. nothing, λ _. refl)

matchhere-Decides : (re : Text) → Decides (Begins (parse re)) (matchhere re)
unfolding matchhere parse
matchhere-Decides [] text = matchhere_nil text
matchhere-Decides (c ∷ []) text = elim (Bool-cases (c == b'$')) [
  | inl e ↦ let decided = match_end-Decides (matchhere []) c e text in rw e decided
  | inr e ↦ rw e (match_one-Decides (matchhere []) c [] [] (rw e refl) matchhere_nil text)
]
matchhere-Decides (c ∷ d ∷ re) text = elim (Bool-cases (d == b'*')) [
  | inl e ↦ rw e (matchstar-Decides (matchhere re) c (parse re) (matchhere-Decides re) text)
  | inr e ↦ rw e (
      match_one-Decides (matchhere (d ∷ re)) c (d ∷ re) (parse (d ∷ re)) (ground arith)
        (matchhere-Decides (d ∷ re)) text)
]

match_from-Decides : (re : Text) → Decides (Occurs (parse re)) (match_from re)
unfolding match_from
match_from-Decides re [] =
    let h = matchhere-Decides re [] in (λ e. now (h.0 e), λ o. h.1 (begins o))
  where
    begins : {items : List Item} → Occurs items [] → Begins items []
    begins (now b) = b
match_from-Decides re (x ∷ text) =
    let h = matchhere-Decides re (x ∷ text) in
    let ih = match_from-Decides re text in
    elim (Bool-cases (matchhere re (x ∷ text))) [
      | inl e ↦ rw e (λ _. now (h.0 e), λ _. refl)
      | inr e ↦ rw e (λ m. later (ih.0 m), λ o. ih.1 (elsewhere o (λ b. let f = h.1 b in cc)))
    ]
  where
    elsewhere :
        {items : List Item} {x : ℕ} {text : Text}
        → Occurs items (x ∷ text)
        → (Begins items (x ∷ text) → ⊥)
        → Occurs items text
    elsewhere (now b) none = absurd (none b)
    elsewhere (later o) none = o

-- What an expression asks of a text: to begin as its items say if it starts with `^`, and else to
-- have a place where they match.
abbrev pub Fits : Text → Text → Type 0
Fits [] text = Occurs [] text
Fits (c ∷ re) text = if c == b'^' then Begins (parse re) text else Occurs (parse (c ∷ re)) text

-- `match` returns true exactly where the text fits the expression.
pub match_iff : (re text : Text) → (match re text ≡ true) ↔ Fits re text
unfolding match parse
match_iff [] text = match_from-Decides [] text
match_iff (c ∷ re) text = elim (Bool-cases (c == b'^')) [
  | inl e ↦ rw e (matchhere-Decides re text)
  | inr e ↦ rw e (match_from-Decides (c ∷ re) text)
]
