-- ===== src/Print/Format.antt =====
-- `printf` of text in which '%' is doubled.
use cs.Base.{
  ℕ, ◌≡◌, inl, inr, refl, ap, sym, false, ◌==◌, if◌then◌else◌, arith, Bool-cases, List, [], ◌∷◌,
  ◌++◌, Option, none, some, append_assoc,
}
use cs.Print.{before, convert, format}

-- The text with each '%' written twice.
pub escape : List ℕ → List ℕ
escape [] = []
escape (c ∷ s) = if c == b'%' then b'%' ∷ b'%' ∷ escape s else c ∷ escape s

before-before :
    (s t : List ℕ) (r : Option (List ℕ))
    → before (some s) (before (some t) r) ≡ before (some (s ++ t)) r
before-before s t none = refl
before-before s t (some u) = ap some (sym (append_assoc s t u))

before-nil : (r : Option (List ℕ)) → before (some []) r ≡ r
before-nil none = refl
before-nil (some s) = refl

-- `printf` of an escaped text writes the text, and then what the rest of the format makes of the
-- same arguments.
pub format-escape :
    (text_at : ℕ → List ℕ) (args : ℕ → ℕ) (ap : ℕ) (s fmt : List ℕ)
    → format text_at args ap false (escape s ++ fmt)
      ≡ before (some s) (format text_at args ap false fmt)
unfolding format escape convert
format-escape text_at args ap [] fmt = sym (before-nil (format text_at args ap false fmt))
format-escape text_at args ap (c ∷ s) fmt = elim (Bool-cases (c == b'%')) [
  | inl e ↦
      let is_percent : c ≡ b'%' = ground arith in
      let ih = format-escape text_at args ap s fmt in
      rw (is_percent, ih) (before-before (b'%' ∷ []) s (format text_at args ap false fmt))
  | inr e ↦
      let ih = format-escape text_at args ap s fmt in
      rw (e, e, ih) (before-before (c ∷ []) s (format text_at args ap false fmt))
]
