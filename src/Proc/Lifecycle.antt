-- ===== src/Proc/Lifecycle.antt =====
-- Creating, ending and reaping processes keep the table sound.
use cs.Base.{
  ◌%◌, ◌^◌, ℕ, ◌+◌, ◌<◌, ◌≡◌, ◌≢◌, ◌⊎◌, inl, inr, refl, ap, ◌∙◌, Bool, true, false, Option, none,
  some, arith, ◌==◌, Bool-cases, ◌&&◌, subst,
}
use cs.Proc.{
  nproc, ProcState, unused, embryo, sleeping, runnable, running, zombie, is_unused, is_sleeping,
  is_zombie, is_running, Proc, Table, find_proc, entered, take_entry, give_stack, fork_into,
  fork_child, parent_eq, reap, waited, wait, of_proc,
}
use cs.Proc.Invariant.{IsSound, Fits, change-IsSound, is_up, is_settled, find_proc_cases}
use cs.Proc.Blocking.{sleep_enter-IsSound, is_running-is_up}

is_unused-down : (s : ProcState) → is_unused s ≡ true → is_up s ≡ false
is_unused-down unused h = refl
is_unused-down embryo h = refl
is_unused-down sleeping h = cc
is_unused-down runnable h = cc
is_unused-down running h = cc
is_unused-down zombie h = refl

not_init : (t : Table) (i : ℕ) → IsSound t → is_up (t.proc i).state ≡ false → i ≢ t.initproc
not_init t i h down e =
    let up = h.init_up in
    let d : is_up (t.proc t.initproc).state ≡ false =
      subst (λ k. is_up (t.proc k).state ≡ false) e down in
    cc

-- The entry that `allocproc` takes.
alloc-Fits :
    (t : Table) (i : ℕ) (p : Proc)
    → IsSound t
    → i < nproc
    → is_unused (t.proc i).state ≡ true
    → p.pid ≡ t.nextpid
    → is_settled p.state ≡ false
    → is_up p.state ≡ false
    → is_sleeping p.state ≡ false
    → t.nextpid + 1 < 2 ^ 31
    → Fits t i ((t.nextpid + 1) % 2 ^ 32) p
alloc-Fits t i p h lt free hp hs hu hl few =
    let down = is_unused-down (t.proc i).state free in
    record {
      next = omega arith;
      below = omega arith;
      used = λ _ z. let lo = h.fresh i lt in omega arith;
      apart = λ j lj ne _ e. let lo = h.fresh j lj in omega arith;
      up = λ _ _ _ _ u. cc;
      init = λ e. absurd (not_init t i h down e);
      parent = λ _ s. cc;
      chan = λ s. cc;
    }

pub take_entry-IsSound : (t : Table) → IsSound t → t.nextpid + 1 < 2 ^ 31 → IsSound (take_entry t).0
unfolding take_entry
take_entry-IsSound t h few =
    find_proc_cases (λ (o : Option ℕ). IsSound (entered t o).0) (λ p. is_unused p.state) t.proc
      nproc 0 (λ _. h)
      (λ i lo hi free.
        let p = record (t.proc i) { state = embryo; pid = t.nextpid } in
        change-IsSound t i ((t.nextpid + 1) % 2 ^ 32) p h
          (alloc-Fits t i p h hi free refl refl refl refl few))

-- An entry without a live process that becomes unused.
freed-Fits :
    (t : Table) (i : ℕ) (p : Proc)
    → IsSound t
    → i < nproc
    → is_up (t.proc i).state ≡ false
    → p.state ≡ unused
    → (p.pid ≡ (t.proc i).pid) ⊎ (p.pid ≡ 0)
    → Fits t i t.nextpid p
freed-Fits t i p h lt down hs hp = record {
  next = omega arith;
  below = let lo = h.fresh i lt in elim hp [ inl e ↦ rw e lo | inr e ↦ omega arith ];
  used = λ u. let free = ap is_unused hs in cc;
  apart = λ j lj ne nz. elim hp [
    | inl e ↦ rw e (h.pids i j lt lj ne (λ z. nz (e ∙ z)))
    | inr e ↦ absurd (nz e)
  ];
  up = λ _ _ _ _ u. cc;
  init = λ e. absurd (not_init t i h down e);
  parent = λ _ st. let new = ap is_settled hs in cc;
  chan = λ s. let new = ap is_sleeping hs in cc;
}

abbrev pub is_embryo : ProcState → Bool
is_embryo embryo = true
is_embryo _ = false

is_embryo-embryo : (s : ProcState) → is_embryo s ≡ true → s ≡ embryo
is_embryo-embryo unused h = cc
is_embryo-embryo embryo h = refl
is_embryo-embryo sleeping h = cc
is_embryo-embryo runnable h = cc
is_embryo-embryo running h = cc
is_embryo-embryo zombie h = cc

forked-Fits :
    (t : Table) (cur i : ℕ) (p : Proc)
    → IsSound t
    → i < nproc
    → cur < nproc
    → (t.proc i).state ≡ embryo
    → is_running (t.proc cur).state ≡ true
    → p.pid ≡ (t.proc i).pid
    → p.state ≡ runnable
    → p.parent ≡ some cur
    → Fits t i t.nextpid p
forked-Fits t cur i p h li lc em run hp hs hq = record {
  next = omega arith;
  below = rw hp (h.fresh i li);
  used = λ _. rw hp (h.used i li (ap is_unused em));
  apart = λ j lj ne. rw hp (h.pids i j li lj ne);
  up = λ _ _ _ _ _. ap is_up hs;
  init = λ _. ap is_up hs;
  parent = λ _ _. rw hq (
    lc,
    λ e.
        let r : is_running (t.proc i).state ≡ true =
          subst (λ k. is_running (t.proc k).state ≡ true) e run in
        let d = ap is_running em in cc,
    is_running-is_up (t.proc cur).state run,
  );
  chan = λ s. let new = ap is_sleeping hs in cc;
}

pub give_stack-IsSound :
    (page i : ℕ) (t : Table)
    → IsSound t
    → i < nproc
    → is_embryo (t.proc i).state ≡ true
    → IsSound (give_stack page i t).0
unfolding give_stack
give_stack-IsSound page i t h lt em =
    let at = is_embryo-embryo (t.proc i).state em in
    elim (Bool-cases (page == 0)) [
      | inl e ↦ rw e (
          change-IsSound t i t.nextpid (record (t.proc i) { kstack = page; state = unused }) h
            (freed-Fits t i (record (t.proc i) { kstack = page; state = unused }) h lt (ap is_up at)
              refl (inl refl)))
      | inr e ↦ rw e (
          change-IsSound t i t.nextpid (record (t.proc i) { kstack = page }) h
            (record {
              next = omega arith;
              below = h.fresh i lt;
              used = h.used i lt;
              apart = λ j lj ne. h.pids i j lt lj ne;
              up = λ _ _ _ _ u. u;
              init = λ same. absurd (not_init t i h (ap is_up at) same);
              parent = λ _ st. let no_settled = ap is_settled at in cc;
              chan = λ s. let awake = ap is_sleeping at in cc;
            }))
    ]

pub fork_into-IsSound :
    (cur i dir : ℕ) (t : Table)
    → IsSound t
    → i < nproc
    → cur < nproc
    → is_embryo (t.proc i).state ≡ true
    → is_running (t.proc cur).state ≡ true
    → IsSound (fork_into cur i dir t).0
unfolding fork_into
fork_into-IsSound cur i dir t h li lc em run =
    let at = is_embryo-embryo (t.proc i).state em in
    elim (Bool-cases (dir == 0)) [
      | inl e ↦ rw e (
          change-IsSound t i t.nextpid (record (t.proc i) { pgdir = 0; kstack = 0; state = unused })
            h
            (freed-Fits t i (record (t.proc i) { pgdir = 0; kstack = 0; state = unused }) h li
              (ap is_up at) refl (inl refl)))
      | inr e ↦ rw e (
          change-IsSound t i t.nextpid (fork_child cur dir t i) h
            (forked-Fits t cur i (fork_child cur dir t i) h li lc at run refl refl refl))
    ]

is_zombie-down : (s : ProcState) → is_zombie s ≡ true → is_up s ≡ false
is_zombie-down unused h = cc
is_zombie-down embryo h = cc
is_zombie-down sleeping h = cc
is_zombie-down runnable h = cc
is_zombie-down running h = cc
is_zombie-down zombie h = refl

wait_idle-IsSound :
    (cur : ℕ) (t : Table) (o : Option ℕ)
    → IsSound t
    → cur < nproc
    → is_running (t.proc cur).state ≡ true
    → IsSound (waited cur t none o).0
wait_idle-IsSound cur t none h lc run = h
wait_idle-IsSound cur t (some k) h lc run = elim (Bool-cases (t.proc cur).killed) [
  | inl e ↦ rw e h
  | inr e ↦ rw e (sleep_enter-IsSound t cur (of_proc cur) h lc run (λ z. cc))
]

pub wait-IsSound :
    (cur : ℕ) (t : Table)
    → IsSound t
    → cur < nproc
    → is_running (t.proc cur).state ≡ true
    → IsSound (wait cur t).0
unfolding wait reap
wait-IsSound cur t h lc run =
    find_proc_cases
      (λ (o : Option ℕ).
        IsSound (waited cur t o (find_proc (λ p. parent_eq p.parent cur) t.proc nproc 0)).0)
      (λ p. parent_eq p.parent cur && is_zombie p.state) t.proc nproc 0
      (λ _.
        wait_idle-IsSound cur t (find_proc (λ p. parent_eq p.parent cur) t.proc nproc 0) h lc run)
      (λ i lo hi found. change-IsSound t i t.nextpid (reap (t.proc i)) h (
        freed-Fits t i (reap (t.proc i)) h hi (is_zombie-down (t.proc i).state (ground arith)) refl
          (inr refl)))
