-- ===== src/File/Handles.antt =====
-- The reference count of a file is the number of handles to it.
use cs.Base.{
  ℕ, zero, suc, ◌+◌, ◌^◌, ◌<◌, ◌≤◌, ◌≡◌, ◌≢◌, inl, inr, refl, ap, sym, ◌∙◌, List, [], ◌∷◌, ◌++◌,
  none, some, arith, ◌==◌, if◌then◌else◌, Bool-cases, update, update_cases, length, ℕ_discrete, ok,
}
use cs.File.{File, Files, alloc_from, filealloc, filedup, Closing, fileclose}

-- How many handles there are to file `i`: descriptors of processes, and pointers that system calls
-- hold.
unfoldable pub handles_to : ℕ → List ℕ → ℕ
handles_to i [] = 0
handles_to i (j ∷ js) = let rest = handles_to i js in if i == j then rest + 1 else rest

pub record World : Type 0 where
  pub files : Files
  pub handles : List ℕ

-- A handle comes from `filealloc` or `filedup` of another and ends by `fileclose`; who has one may
-- set the other fields. There are fewer than 2^31 - 1 handles.
pub data Step : World → World → Type 0 where
  allocs :
      {w : World} (t : Files) (i : ℕ)
      → length w.handles + 1 < 2 ^ 31
      → filealloc w.files ≡ some (t, i)
      → Step w (record { files = t; handles = i ∷ w.handles })
  dups :
      {w : World} (t : Files) (i : ℕ)
      → length w.handles + 1 < 2 ^ 31
      → filedup i w.files ≡ ok t
      → Step w (record { files = t; handles = i ∷ w.handles })
  sets :
      {w : World} (f : File) (i : ℕ)
      → f.ref ≡ (w.files i).ref
      → Step w (record w { files = update w.files i f })
  closes :
      {w : World} (before after : List ℕ) (i : ℕ) (t : Files) (call : Closing)
      → w.handles ≡ before ++ (i ∷ after)
      → fileclose i w.files ≡ ok (t, call)
      → Step w (record { files = t; handles = before ++ after })

-- From a table that is all zero.
pub data Reach : World → Type 0 where
  begins : {t : Files} → ((i : ℕ) → (t i).ref ≡ 0) → Reach (record { files = t; handles = [] })
  then_step : {w u : World} → Reach w → Step w u → Reach u

pub record CountsHandles (w : World) : Type 0 where
  pub counted : (i : ℕ) → (w.files i).ref ≡ handles_to i w.handles
  pub few : length w.handles < 2 ^ 31

pub handles_to-le : (i : ℕ) (hs : List ℕ) → handles_to i hs ≤ length hs
unfolding handles_to
handles_to-le i [] = omega arith
handles_to-le i (j ∷ js) = let ih = handles_to-le i js in ground arith

pub handles_to-middle :
    (k i : ℕ) (before after : List ℕ)
    → handles_to k (before ++ (i ∷ after)) ≡ handles_to k (i ∷ (before ++ after))
unfolding handles_to
handles_to-middle k i [] after = refl
handles_to-middle k i (j ∷ before) after =
    let ih = handles_to-middle k i before after in ground arith

pub length-middle :
    (i : ℕ) (before after : List ℕ) → length (before ++ (i ∷ after)) ≡ length (before ++ after) + 1
length-middle i [] after = omega arith
length-middle i (j ∷ before) after = omega (arith, length-middle i before after)

-- One more handle to `i`, or one less.
pub more-counted :
    (t : Files) (i : ℕ) (f : File) (hs : List ℕ)
    → ((k : ℕ) → (t k).ref ≡ handles_to k hs)
    → f.ref ≡ (t i).ref + 1
    → (k : ℕ) → (update t i f k).ref ≡ handles_to k (i ∷ hs)
unfolding handles_to
more-counted t i f hs h e k =
    let at = h k in
    update_cases (λ (q : File). q.ref ≡ handles_to k (i ∷ hs)) t i f k
      (λ same.
        let at' = h i in
        let eq : handles_to k hs ≡ handles_to i hs = ap (λ x. handles_to x hs) (sym same) in
        ground arith)
      (λ ne. ground arith)

pub less-counted :
    (t : Files) (i : ℕ) (f : File) (hs : List ℕ)
    → ((k : ℕ) → (t k).ref ≡ handles_to k (i ∷ hs))
    → f.ref + 1 ≡ (t i).ref
    → (k : ℕ) → (update t i f k).ref ≡ handles_to k hs
unfolding handles_to
less-counted t i f hs h e k =
    let at = h k in
    update_cases (λ (q : File). q.ref ≡ handles_to k hs) t i f k
      (λ same.
        let at' = h i in
        let eq : handles_to k hs ≡ handles_to i hs = ap (λ x. handles_to x hs) (sym same) in
        ground arith)
      (λ ne. ground arith)

-- What `filealloc` finds.
pub alloc_from-some :
    (n i : ℕ) (t : Files) (j : ℕ)
    → alloc_from n i t ≡ some j
    → ((t j).ref ≡ 0) × (i ≤ j) × (j < i + n)
unfolding alloc_from
alloc_from-some zero i t j h = cc
alloc_from-some (suc n) i t j h = elim (Bool-cases ((t i).ref == 0)) [
  | inl e ↦
      let same : some i ≡ some j = rw e at h in
      let eq : i ≡ j = cc in
      let here : (t i).ref ≡ 0 = ground arith in
      (ap (λ x. (t x).ref) (sym eq) ∙ here, omega arith, omega arith)
  | inr e ↦
      let ih = alloc_from-some n (i + 1) t j (rw e at h) in
      let ih1 = ih.1 in let ih2 = ih.2 in (ih.0, omega arith, omega arith)
]

pub alloc_from-none :
    (n i : ℕ) (t : Files) → alloc_from n i t ≡ none → (j : ℕ) → i ≤ j → j < i + n → (t j).ref ≢ 0
unfolding alloc_from
alloc_from-none zero i t h j le lt = absurd (omega arith)
alloc_from-none (suc n) i t h j le lt = elim (Bool-cases ((t i).ref == 0)) [
  | inl e ↦ let bad : some i ≡ none = rw e at h in cc
  | inr e ↦ elim (ℕ_discrete i j) [
    | yes same ↦ λ z. let z' : (t i).ref ≡ 0 = ap (λ x. (t x).ref) same ∙ z in absurd (ground arith)
    | no ne ↦ alloc_from-none n (i + 1) t (rw e at h) j (omega arith) (omega arith)
  ]
]
