-- ===== src/Cache/Order.antt =====
-- The two searches of `bget`, and the list of buffers as a bag of places.
use cs.Base.{
  ℕ, ◌+◌, ◌≡◌, ◌≢◌, inl, inr, refl, ◌∙◌, true, false, List, [], ◌∷◌, none, some, arith, ◌==◌,
  if◌then◌else◌, Bool-cases, Option-cases,
}
use cs.Cache.{Buf, is_for, is_free, find_cached, find_free, unlink}

-- How often a place stands in the list.
unfoldable pub occurs : ℕ → List ℕ → ℕ
occurs i [] = 0
occurs i (j ∷ js) = let rest = occurs i js in if i == j then rest + 1 else rest

pub find_cached-some :
    (d b : ℕ) (buf : ℕ → Buf) (is : List ℕ) (i : ℕ)
    → find_cached d b buf is ≡ some i
    → (is_for d b (buf i) ≡ true) × (occurs i is ≢ 0)
unfolding occurs
find_cached-some d b buf [] i h = cc
find_cached-some d b buf (j ∷ js) i h = elim (Bool-cases (is_for d b (buf j))) [
  | inl e ↦ let same : some j ≡ some i = rw e at h in let eq : i ≡ j = cc in (rw eq e, ground arith)
  | inr e ↦
      let ih = find_cached-some d b buf js i (rw e at h) in let o = ih.1 in (ih.0, ground arith)
]

pub find_cached-none :
    (d b : ℕ) (buf : ℕ → Buf) (is : List ℕ) (i : ℕ)
    → find_cached d b buf is ≡ none
    → occurs i is ≢ 0
    → is_for d b (buf i) ≡ false
unfolding occurs
find_cached-none d b buf [] i h o = absurd (o refl)
find_cached-none d b buf (j ∷ js) i h o = elim (Bool-cases (is_for d b (buf j))) [
  | inl e ↦ let no : some j ≡ none = rw e at h in cc
  | inr e ↦ elim (Bool-cases (i == j)) [
    | inl same ↦ let eq : i ≡ j = ground arith in rw eq e
    | inr ne ↦ find_cached-none d b buf js i (rw e at h) (λ z. o (rw ne z))
  ]
]

pub find_free-some :
    (buf : ℕ → Buf) (is : List ℕ) (i : ℕ)
    → find_free buf is ≡ some i
    → (is_free (buf i) ≡ true) × (occurs i is ≢ 0)
unfolding occurs
find_free-some buf [] i h = cc
find_free-some buf (j ∷ js) i h = elim (Option-cases (find_free buf js)) [
  | inl e ↦ elim (Bool-cases (is_free (buf j))) [
    | inl f ↦
        let same : some j ≡ some i = rw (e, f) at h in
        let eq : i ≡ j = cc in (rw eq f, ground arith)
    | inr f ↦ let no : none ≡ some i = rw (e, f) at h in cc
  ]
  | inr (k, e) ↦
      let same : some k ≡ some i = rw e at h in
      let ih = find_free-some buf js i (e ∙ same) in (ih.0, let o = ih.1 in ground arith)
]

pub find_free-none :
    (buf : ℕ → Buf) (is : List ℕ) (i : ℕ)
    → find_free buf is ≡ none
    → occurs i is ≢ 0
    → is_free (buf i) ≡ false
unfolding occurs
find_free-none buf [] i h o = absurd (o refl)
find_free-none buf (j ∷ js) i h o = elim (Option-cases (find_free buf js)) [
  | inl e ↦ elim (Bool-cases (is_free (buf j))) [
    | inl f ↦ let no : some j ≡ none = rw (e, f) at h in cc
    | inr f ↦ elim (Bool-cases (i == j)) [
      | inl same ↦ let eq : i ≡ j = ground arith in rw eq f
      | inr ne ↦ find_free-none buf js i e (λ z. o (rw ne z))
    ]
  ]
  | inr (k, e) ↦ let no : some k ≡ none = rw e at h in cc
]

-- To move a place to the front of the list, or not, leaves each place as often.
pub occurs-unlink :
    (i k : ℕ) (is : List ℕ) → occurs i is ≢ 0 → occurs k (i ∷ unlink i is) ≡ occurs k is
unfolding occurs
occurs-unlink i k [] o = absurd (o refl)
occurs-unlink i k (j ∷ js) o = elim (Bool-cases (i == j)) [
  | inl e ↦ let eq : i ≡ j = ground arith in rw (e, eq) refl
  | inr e ↦ let ih = occurs-unlink i k js (λ z. o (rw e z)) in ground (arith, ih, e)
]
