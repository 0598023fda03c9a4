-- ===== src/Names/Elements.antt =====
-- The elements of a path: what stands between slashes.
use cs.Base.{
  ℕ, ◌≤◌, ◌<◌, ◌≡◌, ◌≢◌, inl, inr, refl, ap, sym, ◌∙◌, false, List, [], ◌∷◌, ◌++◌, Option, none,
  some, ◌==◌, if◌then◌else◌, take, length, arith, Bool-cases, append_assoc, append-nil, subst,
}
use cs.Directory.{dirsiz}
use cs.Names.{Text, slash, skip_slashes, element, after, first_element, skipelem}

-- A text that is not empty, as an element.
abbrev emit : Text → List Text → List Text
emit [] es = es
emit (c ∷ s) es = (c ∷ s) ∷ es

-- The elements of the path that goes on after the characters `cur` of one.
pub split : Text → Text → List Text
split cur [] = emit cur []
split cur (c ∷ s) =
    let new = split [] s in
    let same = split (cur ++ (c ∷ [])) s in if c == slash then emit cur new else same

pub elements : Text → List Text
elements path = split [] path

split-element : (cur s : Text) → split cur s ≡ emit (cur ++ element s) (split [] (after s))
unfolding split element after
split-element cur [] = rw (append-nil cur) refl
split-element cur (c ∷ s) = elim (Bool-cases (c == slash)) [
  | inl e ↦ rw (e, e, append-nil cur) refl
  | inr e ↦ rw e (
      split-element (cur ++ (c ∷ [])) s
      ∙ ap (λ x. emit x (split [] (after s))) (append_assoc cur (c ∷ []) (element s)))
]

pub elements-nil : elements [] ≡ []
unfolding elements split
elements-nil = refl

elements-skip_slashes : (s : Text) → elements (skip_slashes s) ≡ elements s
unfolding elements split skip_slashes
elements-skip_slashes [] = refl
elements-skip_slashes (c ∷ s) = elim (Bool-cases (c == slash)) [
  | inl e ↦ rw e (elements-skip_slashes s)
  | inr e ↦ rw (e, e) refl
]

length-skip_slashes : (s : Text) → length (skip_slashes s) ≤ length s
unfolding skip_slashes
length-skip_slashes [] = omega arith
length-skip_slashes (c ∷ s) = ground (arith, length-skip_slashes s)

length-after : (s : Text) → length (after s) ≤ length s
unfolding after
length-after [] = omega arith
length-after (c ∷ s) = ground (arith, length-after s)

-- What `skipelem` returns of a path: nothing if there is no element, and else the first one, cut to
-- `dirsiz` characters, and a shorter path with the others.
abbrev pub TakesElement : Text → Option (Text × Text) → Type 0
TakesElement path none = elements path ≡ []
TakesElement path (some (name, rest)) =
    ((e : Text) × (elements path ≡ e ∷ elements rest) × (name ≡ take dirsiz e))
    × (length rest < length path)
    × (skip_slashes rest ≡ rest)

-- After the slashes there is the end or an element.
head_not_slash : (s t : Text) (c : ℕ) → skip_slashes s ≡ c ∷ t → (c == slash) ≡ false
unfolding skip_slashes
head_not_slash [] t c h = cc
head_not_slash (d ∷ s) t c h = elim (Bool-cases (d == slash)) [
  | inl e ↦ head_not_slash s t c (rw e at h)
  | inr e ↦ let same : d ≡ c = ground arith in rw (← same) e
]

skip_slashes_idem : (s : Text) → skip_slashes (skip_slashes s) ≡ skip_slashes s
unfolding skip_slashes
skip_slashes_idem [] = refl
skip_slashes_idem (c ∷ s) = elim (Bool-cases (c == slash)) [
  | inl e ↦ rw e (skip_slashes_idem s)
  | inr e ↦ rw (e, e) refl
]

first_element-TakesElement :
    (path s : Text) → skip_slashes path ≡ s → TakesElement path (first_element s)
unfolding elements
first_element-TakesElement path [] h =
    sym (elements-skip_slashes path) ∙ ap elements h ∙ elements-nil
first_element-TakesElement path (c ∷ s) h =
    let not_slash = head_not_slash path s c h in
    let rest = after (c ∷ s) in
    let own : element (c ∷ s) ≡ c ∷ element s = unfold element in rw not_slash refl in
    let shorter : length (after (c ∷ s)) ≤ length s =
      unfold after in rw not_slash (length-after s) in
    let skipped = length-skip_slashes (after (c ∷ s)) in
    let before : length (c ∷ s) ≤ length path =
      subst (λ (x : Text). length x ≤ length path) h (length-skip_slashes path) in
    (
      (
        element (c ∷ s),
        sym (elements-skip_slashes path)
            ∙ ap elements h
            ∙ split-element [] (c ∷ s)
            ∙ rw own refl
            ∙ ap (λ x. element (c ∷ s) ∷ x) (sym (elements-skip_slashes (after (c ∷ s)))),
        refl,
      ),
      omega arith,
      skip_slashes_idem (after (c ∷ s)),
    )

pub skipelem-TakesElement : (path : Text) → TakesElement path (skipelem path)
unfolding skipelem
skipelem-TakesElement path = first_element-TakesElement path (skip_slashes path) refl

-- A path without slashes in front that is not empty has an element.
pub elements-ne-nil : (c : ℕ) (s : Text) → skip_slashes (c ∷ s) ≡ c ∷ s → elements (c ∷ s) ≢ []
unfolding elements
elements-ne-nil c s h e =
    let not_slash = head_not_slash (c ∷ s) s c h in
    let own : element (c ∷ s) ≡ c ∷ element s = unfold element in rw not_slash refl in
    let split_first = split-element [] (c ∷ s) in
    let some_element : emit (element (c ∷ s)) (split [] (after (c ∷ s))) ≡ [] =
      sym split_first ∙ e in
    let shown : emit (c ∷ element s) (split [] (after (c ∷ s))) ≡ [] = rw own at some_element in cc
