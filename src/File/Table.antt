-- ===== src/File/Table.antt =====
-- The operations on the table keep the counts right, and files are closed with the last handle.
use cs.Base.{
  ℕ, ◌+◌, ◌-◌, ◌%◌, ◌^◌, ◌<◌, ◌≡◌, ◌≢◌, ◌↔◌, inl, inr, refl, ap, sym, ◌∙◌, true, false, ◌&&◌, List,
  ◌∷◌, ◌++◌, Option, none, some, arith, ◌==◌, ltb, if◌then◌else◌, Bool-cases, Option-cases, update,
  update_cases, length, subst, ok, panic,
}
use cs.File.{
  nfile, File, Files, alloc_from, filealloc, is_unused, filedup, closing, fileclose, no_call,
  fd_none,
}
use cs.File.Handles.{
  handles_to, World, Step, Reach, CountsHandles, handles_to-le, handles_to-middle, length-middle,
  more-counted, less-counted, alloc_from-some, alloc_from-none,
}

filedup-ref :
    (i : ℕ) (t u : Files)
    → filedup i t ≡ ok u
    → (is_unused (t i) ≡ false) × (u ≡ update t i (record (t i) { ref = ((t i).ref + 1) % 2 ^ 32 }))
unfolding filedup
filedup-ref i t u h = elim (Bool-cases (is_unused (t i))) [
  | inl e ↦ let bad : panic ≡ ok u = rw e at h in cc
  | inr e ↦
      let got : ok (update t i (record (t i) { ref = ((t i).ref + 1) % 2 ^ 32 })) ≡ ok u =
        simp e at h in
      (e, cc)
]

-- `fileclose` of a file in use does not panic.
fileclose-ok :
    (i n : ℕ) (t : Files)
    → (t i).ref ≡ n + 1
    → n + 1 < 2 ^ 31
    → (f : File) × (fileclose i t
        ≡ ok (update t i f, if n == 0 then closing (t i).type (t i) else no_call))
      × (f.ref ≡ n)
unfolding fileclose
fileclose-ok i n t e lt =
    let used : is_unused (t i) ≡ false = ground arith in
    let less : ((t i).ref + 2 ^ 32 - 1) % 2 ^ 32 ≡ n = omega arith in
    elim (Bool-cases (n == 0)) [
      | inl z ↦
          let last : (ltb 0 n && ltb n (2 ^ 31)) ≡ false = ground arith in
          let n0 : n ≡ 0 = ground arith in
          (record (t i) { ref = 0; type = fd_none }, simp (used, less, last, z) refl, sym n0)
      | inr nz ↦
          let more : (ltb 0 n && ltb n (2 ^ 31)) ≡ true = ground arith in
          (record (t i) { ref = n }, simp (used, less, more, nz) refl, refl)
    ]

-- The count of the file of one handle among others.
handle_count :
    (w : World) (before after : List ℕ) (i : ℕ)
    → CountsHandles w
    → w.handles ≡ before ++ (i ∷ after)
    → (k : ℕ) → (w.files k).ref ≡ handles_to k (i ∷ (before ++ after))
handle_count w before after i h at k =
    h.counted k ∙ ap (handles_to k) at ∙ handles_to-middle k i before after

-- With a handle, `fileclose` returns; it closes what the file stands for exactly if this was the last.
closes_lem :
    (w : World) (before after : List ℕ) (i : ℕ)
    → CountsHandles w
    → w.handles ≡ before ++ (i ∷ after)
    → (f : File) × (fileclose i w.files
        ≡ ok (
          update w.files i f,
          if handles_to i (before ++ after) == 0
              then closing (w.files i).type (w.files i)
              else no_call,
        ))
      × (f.ref ≡ handles_to i (before ++ after))
unfolding handles_to
closes_lem w before after i h at =
    let n = handles_to i (before ++ after) in
    let here = handle_count w before after i h at i in
    let le = handles_to-le i (before ++ after) in
    let few = h.few in
    let size : length w.handles ≡ length (before ++ after) + 1 =
      ap length at ∙ length-middle i before after in
    fileclose-ok i n w.files (ground arith) (omega arith)

handles_here : (i : ℕ) (js : List ℕ) → handles_to i (i ∷ js) ≡ handles_to i js + 1
unfolding handles_to
handles_here i js = ground arith

Step-CountsHandles : {w u : World} → Step w u → CountsHandles w → CountsHandles u
Step-CountsHandles (Step.allocs {w} t i few e) h =
    elim (Option-cases (alloc_from nfile 0 w.files)) [
      | inl no_file ↦
          let bad : ◌≡◌ {A = Option (Files × ℕ)} none (some (t, i)) = rw no_file at e in cc
      | inr (j, found) ↦
          let f = record (w.files j) { ref = 1 } in
          let got : some (update w.files j f, j) ≡ some (t, i) = rw found at e in
          let pair : (update w.files j f, j) ≡ (t, i) = cc in
          let z = (alloc_from-some nfile 0 w.files j found).0 in
          subst
            (λ (p : Files × ℕ). CountsHandles (record { files = p.0; handles = p.1 ∷ w.handles }))
            pair
            (record {
              counted = more-counted w.files j f w.handles h.counted (omega arith);
              few = omega arith;
            })
    ]
Step-CountsHandles (Step.dups {w} t i few e) h =
    let got = filedup-ref i w.files t e in
    let f = record (w.files i) { ref = ((w.files i).ref + 1) % 2 ^ 32 } in
    let le = handles_to-le i w.handles in
    let at = h.counted i in
    subst (λ x. CountsHandles (record { files = x; handles = i ∷ w.handles })) (sym got.1)
      (record {
        counted = more-counted w.files i f w.handles h.counted (omega arith);
        few = omega arith;
      })
Step-CountsHandles (Step.sets {w} f i e) h = record {
  counted = λ k.
      update_cases (λ (q : File). q.ref ≡ handles_to k w.handles) w.files i f k
        (λ same. e ∙ ap (λ x. (w.files x).ref) same ∙ h.counted k) (λ _. h.counted k);
  few = h.few;
}
Step-CountsHandles (Step.closes {w} before after i t call at e) h =
    let out = closes_lem w before after i h at in
    let one = sym out.1 ∙ e in
    let pair : update w.files i out.0 ≡ t = cc in
    let few = h.few in
    let size : length w.handles ≡ length (before ++ after) + 1 =
      ap length at ∙ length-middle i before after in
    subst (λ x. CountsHandles (record { files = x; handles = before ++ after })) pair
      (record {
        counted =
            less-counted w.files i out.0 (before ++ after) (handle_count w before after i h at) (
              let ref_now = out.2 in
              omega (
                arith,
                ref_now,
                handle_count w before after i h at i,
                handles_here i (before ++ after),
              ));
        few = omega arith;
      })

-- However files are opened, duplicated and closed, the reference count of each is the number of
-- handles to it.
pub Reach-CountsHandles : {w : World} → Reach w → CountsHandles w
unfolding handles_to
Reach-CountsHandles (Reach.begins h) = record { counted = h; few = omega arith }
Reach-CountsHandles (Reach.then_step r st) = Step-CountsHandles st (Reach-CountsHandles r)

-- In any state that is reached, `fileclose` of a handle returns, and it closes the pipe or puts the
-- inode exactly if no other handle to the file is left.
pub Reach-fileclose :
    {w : World} (before after : List ℕ) (i : ℕ)
    → Reach w
    → w.handles ≡ before ++ (i ∷ after)
    → (t : Files) × (fileclose i w.files
        ≡ ok (
          t,
          if handles_to i (before ++ after) == 0
              then closing (w.files i).type (w.files i)
              else no_call,
        ))
Reach-fileclose {w} before after i r at =
    let out = closes_lem w before after i (Reach-CountsHandles r) at in
    (update w.files i out.0, out.1)

-- In any state that is reached, `filealloc` fails exactly if there is a handle to each file.
pub Reach-filealloc :
    {w : World}
    → Reach w
    → (filealloc w.files ≡ none) ↔ ((i : ℕ) → i < nfile → handles_to i w.handles ≢ 0)
Reach-filealloc {w} r =
    let h = Reach-CountsHandles r in
    elim (Option-cases (alloc_from nfile 0 w.files)) [
      | inl no_file ↦ (
        λ _ i lt z.
            alloc_from-none nfile 0 w.files no_file i (omega arith) (omega arith) (h.counted i ∙ z),
        λ _. rw no_file refl,
      )
      | inr (j, found) ↦
          let at = alloc_from-some nfile 0 w.files j found in
          let lt = at.2 in
          (
            λ e.
                let bad : some (update w.files j (record (w.files j) { ref = 1 }), j) ≡ none =
                  rw found at e in
                cc,
            λ all. absurd (all j (omega arith) (sym (h.counted j) ∙ at.0)),
          )
    ]
