-- ===== src/Proc/Steps.antt =====
-- The steps that the kernel takes on the process table, each up to where `ptable.lock` is released
-- or kept across a switch, in any order and by any process.
use cs.Base.{
  ◌^◌, ℕ, ◌+◌, ◌≤◌, ◌<◌, ◌≡◌, ◌≢◌, inl, inr, refl, ap, sym, ◌∙◌, Bool, true, false, Option, none,
  some, arith, ◌==◌, if◌then◌else◌, Bool-cases, Outcome, ok, panic, List, subst, replicate, update,
  update_cases, update_ne,
}
use cs.Proc.{
  nproc, unused, runnable, is_running, Chan, null, Proc, Table, Call, allocproc, take_entry,
  give_stack, fork_into, userinit, wakeup1, sleep_enter, sleep_leave, kill, exit_files, exit_zombie,
  wait, yield_cpu, schedule, is_unused, is_sleeping, find_proc, initcode, safestrcpy, embryo,
  set_proc, started,
}
use cs.Proc.Invariant.{IsSound, HasParent, is_up, is_settled}
use cs.Proc.Blocking.{
  sleep_enter-IsSound, sleep_leave-IsSound, yield_cpu-IsSound, schedule-IsSound, wakeup1-IsSound,
  kill-IsSound,
}
use cs.Proc.Lifecycle.{
  is_embryo, take_entry-IsSound, give_stack-IsSound, fork_into-IsSound, wait-IsSound,
}
use cs.Proc.Exit.{exit_files-IsSound, exit_zombie-IsSound}

-- The running process at `cur` takes a step, or the scheduler does.
pub data Step : Table → Table → Type 0 where
  allocates : {t : Table} → t.nextpid + 1 < 2 ^ 31 → Step t (take_entry t).0
  stacks :
      (page i : ℕ) {t : Table}
      → i < nproc
      → is_embryo (t.proc i).state ≡ true
      → Step t (give_stack page i t).0
  forks :
      (cur i dir : ℕ) {t : Table}
      → i < nproc
      → cur < nproc
      → is_embryo (t.proc i).state ≡ true
      → is_running (t.proc cur).state ≡ true
      → Step t (fork_into cur i dir t).0
  sleeps :
      (cur : ℕ) (c : Chan) {t : Table}
      → cur < nproc
      → is_running (t.proc cur).state ≡ true
      → c ≢ null
      → Step t (sleep_enter cur c t)
  resumes :
      (cur : ℕ) {t : Table}
      → cur < nproc
      → is_running (t.proc cur).state ≡ true
      → Step t (sleep_leave cur t)
  yields :
      (cur : ℕ) {t : Table}
      → cur < nproc
      → is_running (t.proc cur).state ≡ true
      → Step t (yield_cpu cur t)
  schedules : (k i : ℕ) {t : Table} → i + k ≤ nproc → Step t (schedule k i t).0
  wakes : (c : Chan) {t : Table} → Step t (wakeup1 c t)
  kills : (pid : ℕ) {t : Table} → Step t (kill pid t).0
  closes :
      (cur : ℕ) (r : Table × List Call) {t : Table}
      → cur < nproc
      → is_running (t.proc cur).state ≡ true
      → exit_files cur t ≡ ok r
      → Step t r.0
  exits :
      (cur : ℕ) {t : Table}
      → cur < nproc
      → cur ≢ t.initproc
      → is_running (t.proc cur).state ≡ true
      → Step t (exit_zombie cur t)
  waits :
      (cur : ℕ) {t : Table}
      → cur < nproc
      → is_running (t.proc cur).state ≡ true
      → Step t (wait cur t).0

Step-IsSound : {t u : Table} → Step t u → IsSound t → IsSound u
Step-IsSound (allocates {t} few) h = take_entry-IsSound t h few
Step-IsSound (stacks page i {t} li em) h = give_stack-IsSound page i t h li em
Step-IsSound (forks cur i dir {t} li lc em run) h = fork_into-IsSound cur i dir t h li lc em run
Step-IsSound (sleeps cur c {t} lc run nc) h = sleep_enter-IsSound t cur c h lc run nc
Step-IsSound (resumes cur {t} lc run) h = sleep_leave-IsSound t cur h lc run
Step-IsSound (yields cur {t} lc run) h = yield_cpu-IsSound t cur h lc run
Step-IsSound (schedules k i {t} le) h = schedule-IsSound k i t le h
Step-IsSound (wakes c {t}) h = wakeup1-IsSound c t h
Step-IsSound (kills pid {t}) h = kill-IsSound pid t h
Step-IsSound (closes cur r {t} lc run e) h = exit_files-IsSound cur t r h lc run e
Step-IsSound (exits cur {t} lc ni run) h = exit_zombie-IsSound cur t h lc ni run
Step-IsSound (waits cur {t} lc run) h = wait-IsSound cur t h lc run

abbrev empty_proc : Proc
empty_proc = record {
  sz = 0;
  pgdir = 0;
  kstack = 0;
  state = unused;
  pid = 0;
  parent = none;
  chan = null;
  killed = false;
  ofile = replicate 16 0;
  cwd = 0;
  name = replicate 16 0;
  trapcounts = replicate 23 0;
  syscounts = replicate 23 0;
}

-- The table in a zeroed data segment, with `nextpid = 1`.
abbrev pub boot : Table
boot = record { proc = λ i. empty_proc; nextpid = 1; initproc = 0 }

abbrev first : ℕ → ℕ → ℕ → Proc
first page dir root = record empty_proc {
  pid = 1;
  kstack = page;
  pgdir = dir;
  sz = 4096;
  name = safestrcpy (replicate 16 0) initcode 16;
  cwd = root;
  state = runnable;
}

-- What the kernel reaches after `userinit`.
pub data Reach (page dir root : ℕ) : Table → Type 0 where
  begins : {t : Table} → userinit page dir root boot ≡ ok t → Reach page dir root t
  then_step : {t u : Table} → Reach page dir root t → Step t u → Reach page dir root u

-- A table whose entry 0 alone holds a process.
alone-IsSound :
    (f : ℕ → Proc) (p : Proc)
    → ((i : ℕ) → 0 ≢ i → f i ≡ empty_proc)
    → p.state ≡ runnable
    → p.pid ≡ 1
    → IsSound (record { proc = update f 0 p; nextpid = 2; initproc = 0 })
alone-IsSound f p hf hs hp = record {
  init_in = omega arith;
  init_up = ap is_up hs;
  fresh = λ i lt.
      update_cases (λ (r : Proc). r.pid < 2) f 0 p i (λ _. omega arith)
        (λ nz. rw (hf i nz) (omega arith));
  used = λ i lt.
      update_cases (λ (r : Proc). is_unused r.state ≡ false → r.pid ≢ 0) f 0 p i
        (λ _ _ z. omega arith) (λ nz. rw (hf i nz) (λ z. cc));
  pids = λ i j li lj ne.
      update_cases (λ (r : Proc). r.pid ≢ 0 → r.pid ≢ (update f 0 p j).pid) f 0 p i
        (λ zi.
          update_cases (λ (r : Proc). p.pid ≢ 0 → p.pid ≢ r.pid) f 0 p j
            (λ zj. absurd (ne (sym zi ∙ zj))) (λ nj. rw (hf j nj) (λ nz z. nz z)))
        (λ ni. rw (hf i ni) (λ nz. absurd (nz refl)));
  parents = λ i lt ni.
      update_cases
        (λ (r : Proc).
          is_settled r.state ≡ true
          → HasParent (record { proc = update f 0 p; nextpid = 2; initproc = 0 }) i r.parent)
        f 0 p i (λ z. absurd (ni (sym z))) (λ nz. rw (hf i nz) (λ z. cc));
  chans = λ i lt.
      update_cases (λ (r : Proc). is_sleeping r.state ≡ true → r.chan ≢ null) f 0 p i
        (λ _ s. let new = ap is_sleeping hs in cc) (λ nz. rw (hf i nz) (λ z. cc));
}

abbrev newborn : Proc
newborn = record empty_proc { state = embryo; pid = 1 }

abbrev entry_only : ℕ → Proc
entry_only = update (λ i. empty_proc) 0 newborn

abbrev embryo_only : ℕ → ℕ → Proc
embryo_only page = update entry_only 0 (record newborn { kstack = page })

abbrev pub booted : ℕ → ℕ → ℕ → Table
booted page dir root = record {
  proc = update (embryo_only page) 0 (first page dir root);
  nextpid = 2;
  initproc = 0;
}

abbrev taken : ℕ → Table
taken page = record { proc = embryo_only page; nextpid = 2; initproc = 0 }

alloc_fails : (page : ℕ) → (page == 0) ≡ true → (allocproc page boot).1 ≡ none
unfolding allocproc take_entry give_stack find_proc
alloc_fails page p = rw p refl

started_lem :
    (dir root : ℕ) (t : Table) (r : Table × Option ℕ) → r.1 ≡ none → started dir root r ≡ ok t → ⊥
started_lem dir root t r h e = no_entry r.0 r.1 h e
  where
    no_entry : (u : Table) (o : Option ℕ) → o ≡ none → started dir root (u, o) ≡ ok t → ⊥
    no_entry u none h e = cc
    no_entry u (some i) h e = cc

dir_fails : (page dir root : ℕ) → (dir == 0) ≡ true → started dir root (taken page, some 0) ≡ panic
dir_fails page dir root d = rw d refl

dir_given :
    (page dir root : ℕ)
    → (dir == 0) ≡ false
    → started dir root (taken page, some 0) ≡ ok (booted page dir root)
dir_given page dir root d = rw d refl

failed : (t : Table) {o : Outcome Table} → o ≡ panic → o ≡ ok t → ⊥
failed t e d = cc

ok_inj : {t u : Table} → ok t ≡ ok u → t ≡ u
ok_inj e = cc

-- What `allocproc` makes of the first table.
alloc_first : (page : ℕ) → (page == 0) ≡ false → allocproc page boot ≡ (taken page, some 0)
unfolding allocproc take_entry give_stack find_proc
alloc_first page p =
    ap
      (λ (b : Bool).
        if b
        then (
          set_proc (record { proc = entry_only; nextpid = 2; initproc = 0 }) 0
              (record newborn { state = unused; kstack = page }),
          none,
        )
        else (taken page, some 0))
      p

userinit-IsSound : (page dir root : ℕ) (t : Table) → userinit page dir root boot ≡ ok t → IsSound t
unfolding userinit
userinit-IsSound page dir root t e = elim (Bool-cases (page == 0)) [
  | inl p ↦
      let none_free = alloc_fails page p in
      absurd (started_lem dir root t (allocproc page boot) none_free e)
  | inr p ↦
      let at = ap (started dir root) (alloc_first page p) in
      elim (Bool-cases (dir == 0)) [
        | inl d ↦ absurd (failed t (at ∙ dir_fails page dir root d) e)
        | inr d ↦ subst IsSound (ok_inj (sym (at ∙ dir_given page dir root d) ∙ e)) (
            alone-IsSound (embryo_only page) (first page dir root)
              (λ i ne.
                update_ne entry_only 0 i (record newborn { kstack = page }) ne
                ∙ update_ne (λ i. empty_proc) 0 i newborn ne)
              refl refl)
      ]
]

-- From the first process on, whatever steps processes and the scheduler take, in any order, and as
-- long as `nextpid`, an `int`, does not wrap (2^31 - 2 processes), the
-- process table stays sound: init lives; every used entry has a pid that is not 0, below `nextpid` and
-- no other entry's; every process but init, zombies too, that is not still being created has as
-- parent another entry that holds a live process; and a sleeping process has a channel.
pub Reach-IsSound : {page dir root : ℕ} {t : Table} → Reach page dir root t → IsSound t
Reach-IsSound {page} {dir} {root} {t} (begins e) = userinit-IsSound page dir root t e
Reach-IsSound (then_step r s) = Step-IsSound s (Reach-IsSound r)
