-- ===== src/Proc/Exit.antt =====
-- `exit`: the loop that passes the children to init, and the table after it.
use cs.Base.{
  ℕ, zero, suc, ◌+◌, ◌≤◌, ◌<◌, ◌≡◌, ◌≢◌, ◌⊎◌, inl, inr, refl, sym, ◌∙◌, true, Option, none, some,
  arith, ◌==◌, if◌then◌else◌, update, Bool-cases, ℕ_discrete, subst, ok, List, [], ◌∷◌, ◌++◌, map,
}
use cs.Proc.{
  nproc, zombie, is_zombie, is_running, Proc, Table, Call, set_proc, parent_eq, abandon,
  abandon_from, exit_zombie, exit_files, wakeup1, of_proc, chan_of, iput, begins_op, ends_op,
  close_files,
}
use cs.Proc.Invariant.{IsSound, change-IsSound, is_up}
use cs.Proc.Blocking.{
  wakeup1-IsSound, wakeup1-parent, wakeup1-up, is_running-is_up, is_running-awake, is_up-is_unused,
  is_up-is_settled, live-IsSound,
}

abbrev adopted : Table → ℕ → Proc
adopted t i = record (t.proc i) { parent = some t.initproc }

-- An entry whose parent becomes init.
adopt-IsSound : (t : Table) (i : ℕ) → IsSound t → i < nproc → IsSound (set_proc t i (adopted t i))
adopt-IsSound t i h lt = change-IsSound t i t.nextpid (adopted t i) h (record {
  next = omega arith;
  below = h.fresh i lt;
  used = h.used i lt;
  apart = λ j lj ne. h.pids i j lt lj ne;
  up = λ _ _ _ _ u. u;
  init = λ e. subst (λ k. is_up (t.proc k).state ≡ true) (sym e) h.init_up;
  parent = λ ne _. (h.init_in, λ e. ne (sym e), h.init_up);
  chan = h.chans i lt;
})

abandon-IsSound : (cur i : ℕ) (t : Table) → IsSound t → i < nproc → IsSound (abandon cur i t)
unfolding abandon
abandon-IsSound cur i t h lt =
    let kept = adopt-IsSound t i h lt in
    elim (Bool-cases (parent_eq (t.proc i).parent cur)) [
      | inl e ↦ elim (Bool-cases (is_zombie (t.proc i).state)) [
        | inl z ↦ rw (e, z) (wakeup1-IsSound (of_proc t.initproc) (set_proc t i (adopted t i)) kept)
        | inr z ↦ rw (e, z) kept
      ]
      | inr e ↦ rw e h
    ]

abandon-initproc : (cur i : ℕ) (t : Table) → (abandon cur i t).initproc ≡ t.initproc
unfolding abandon wakeup1
abandon-initproc cur i t = ground arith

parent_eq-some : (o : Option ℕ) (cur : ℕ) → o ≡ some cur → parent_eq o cur ≡ true
parent_eq-some none cur h = cc
parent_eq-some (some i) cur h = ground arith

abbrev parent_after : ℕ → ℕ → Table → ℕ → Option ℕ
parent_after cur i t j =
    if parent_eq (t.proc i).parent cur
    then (update t.proc i (adopted t i) j).parent
    else (t.proc j).parent

abandon-parent :
    (cur i : ℕ) (t : Table) (j : ℕ) → ((abandon cur i t).proc j).parent ≡ parent_after cur i t j
unfolding abandon
abandon-parent cur i t j = elim (Bool-cases (parent_eq (t.proc i).parent cur)) [
  | inl e ↦ elim (Bool-cases (is_zombie (t.proc i).state)) [
    | inl z ↦ rw (e, z) (wakeup1-parent (of_proc t.initproc) (set_proc t i (adopted t i)) j)
    | inr z ↦ rw (e, z) refl
  ]
  | inr e ↦ rw e refl
]

-- Whoever still has the process as parent had it before and is not the entry of this round.
abandon_lem :
    (cur i j : ℕ) (t : Table)
    → t.initproc ≢ cur
    → ((abandon cur i t).proc j).parent ≡ some cur
    → (i ≢ j) × ((t.proc j).parent ≡ some cur)
abandon_lem cur i j t ne h =
    let was = sym (abandon-parent cur i t j) ∙ h in
    elim (Bool-cases (parent_eq (t.proc i).parent cur)) [
      | inl e ↦ elim (ℕ_discrete i j) [
        | yes ij ↦ absurd (ground arith)
        | no nij ↦ (nij, ground arith)
      ]
      | inr e ↦ (
        λ ij.
            let own =
              parent_eq-some (t.proc i).parent cur
                (subst (λ k. (t.proc k).parent ≡ some cur) (sym ij) (ground arith)) in
            cc,
        ground arith,
      )
    ]

abandon_from-IsSound :
    (cur k i : ℕ) (t : Table) → IsSound t → i + k ≤ nproc → IsSound (abandon_from cur k i t)
unfolding abandon_from
abandon_from-IsSound cur zero i t h le = h
abandon_from-IsSound cur (suc k) i t h le =
    abandon_from-IsSound cur k (i + 1) (abandon cur i t) (abandon-IsSound cur i t h (omega arith))
      (omega arith)

abandon_from-initproc : (cur k i : ℕ) (t : Table) → (abandon_from cur k i t).initproc ≡ t.initproc
unfolding abandon_from
abandon_from-initproc cur zero i t = refl
abandon_from-initproc cur (suc k) i t =
    abandon_from-initproc cur k (i + 1) (abandon cur i t) ∙ abandon-initproc cur i t

abandon_from_lem :
    (cur k i j : ℕ) (t : Table)
    → t.initproc ≢ cur
    → ((abandon_from cur k i t).proc j).parent ≡ some cur
    → ((j < i) ⊎ (i + k ≤ j)) × ((t.proc j).parent ≡ some cur)
unfolding abandon_from
abandon_from_lem cur zero i j t ne h = (omega arith, h)
abandon_from_lem cur (suc k) i j t ne h =
    let ne' : (abandon cur i t).initproc ≢ cur = λ e. ne (sym (abandon-initproc cur i t) ∙ e) in
    let (away, still) = abandon_from_lem cur k (i + 1) j (abandon cur i t) ne' h in
    let (nij, was) = abandon_lem cur i j t ne still in (omega arith, was)

abandon-up :
    (cur i : ℕ) (t : Table) (j : ℕ)
    → is_up ((abandon cur i t).proc j).state ≡ is_up (t.proc j).state
unfolding abandon
abandon-up cur i t j =
    let same : is_up (update t.proc i (adopted t i) j).state ≡ is_up (t.proc j).state =
      ground arith in
    elim (Bool-cases (parent_eq (t.proc i).parent cur)) [
      | inl e ↦ elim (Bool-cases (is_zombie (t.proc i).state)) [
        | inl z ↦ rw (e, z) (wakeup1-up (of_proc t.initproc) (set_proc t i (adopted t i)) j ∙ same)
        | inr z ↦ rw (e, z) same
      ]
      | inr e ↦ rw e refl
    ]

abandon_from-up :
    (cur k i : ℕ) (t : Table) (j : ℕ)
    → is_up ((abandon_from cur k i t).proc j).state ≡ is_up (t.proc j).state
unfolding abandon_from
abandon_from-up cur zero i t j = refl
abandon_from-up cur (suc k) i t j =
    abandon_from-up cur k (i + 1) (abandon cur i t) j ∙ abandon-up cur i t j

-- The entry of a process without children becomes a zombie.
zombie-IsSound :
    (t : Table) (i : ℕ)
    → IsSound t
    → i < nproc
    → i ≢ t.initproc
    → is_up (t.proc i).state ≡ true
    → ((j : ℕ) → j < nproc → (t.proc j).parent ≢ some i)
    → IsSound (set_proc t i (record (t.proc i) { state = zombie }))
zombie-IsSound t i h lt ni up none_left =
    change-IsSound t i t.nextpid (record (t.proc i) { state = zombie }) h
      (record {
        next = omega arith;
        below = h.fresh i lt;
        used = λ _. h.used i lt (is_up-is_unused (t.proc i).state up);
        apart = λ j lj ne. h.pids i j lt lj ne;
        up = λ j lj _ e _. absurd (none_left j lj e);
        init = λ e. absurd (ni e);
        parent = λ ne _. h.parents i lt ne (is_up-is_settled (t.proc i).state up);
        chan = λ s. cc;
      })

-- When a process that is not init has become a zombie, no entry of the table has it as parent.
pub exit_zombie-childless :
    (cur : ℕ) (t : Table)
    → t.initproc ≢ cur
    → (j : ℕ) → j < nproc
    → ((exit_zombie cur t).proc j).parent ≢ some cur
unfolding exit_zombie wakeup1
exit_zombie-childless cur t ne j lt e =
    let t1 = wakeup1 (chan_of (t.proc cur).parent) t in
    let t2 = abandon_from cur nproc 0 t1 in
    let was : (t2.proc j).parent ≡ some cur = ground arith in
    let away = (abandon_from_lem cur nproc 0 j t1 ne was).0 in omega arith

pub exit_zombie-IsSound :
    (cur : ℕ) (t : Table)
    → IsSound t
    → cur < nproc
    → cur ≢ t.initproc
    → is_running (t.proc cur).state ≡ true
    → IsSound (exit_zombie cur t)
unfolding exit_zombie wakeup1
exit_zombie-IsSound cur t h lc ni run =
    let c = chan_of (t.proc cur).parent in
    let woken = wakeup1-IsSound c t h in
    let t1 = wakeup1 c t in
    let t2 = abandon_from cur nproc 0 t1 in
    zombie-IsSound t2 cur (abandon_from-IsSound cur nproc 0 t1 woken (omega arith)) lc
      (λ e. ni (e ∙ abandon_from-initproc cur nproc 0 t1))
      (abandon_from-up cur nproc 0 t1 cur
        ∙ wakeup1-up c t cur
        ∙ is_running-is_up (t.proc cur).state run)
      (λ j lt e.
        let away = (abandon_from_lem cur nproc 0 j t1 (λ z. ni (sym z)) e).0 in omega arith)

pub exit_files-IsSound :
    (cur : ℕ) (t : Table) (r : Table × List Call)
    → IsSound t
    → cur < nproc
    → is_running (t.proc cur).state ≡ true
    → exit_files cur t ≡ ok r
    → IsSound r.0
unfolding exit_files
exit_files-IsSound cur t r h lc run e =
    let c = t.proc cur in
    let closed = record c { ofile = map (λ f. 0) c.ofile; cwd = 0 } in
    let up = is_running-is_up c.state run in
    elim (Bool-cases (cur == t.initproc)) [
      | inl eq ↦ absurd (ground arith)
      | inr eq ↦
          let same : (
            set_proc t cur closed,
            close_files c.ofile ++ (begins_op ∷ iput c.cwd ∷ ends_op ∷ []),
          )
              ≡ r =
            ground arith in
          subst (λ (x : Table × List Call). IsSound x.0) same
            (live-IsSound t cur closed h lc up up refl refl
              (λ s. let awake = is_running-awake c.state run in cc))
    ]
