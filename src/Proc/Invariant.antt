-- ===== src/Proc/Invariant.antt =====
-- What holds of the process table between the critical sections of `ptable.lock`.
use cs.Base.{
  ℕ, zero, suc, ◌+◌, ◌≤◌, ◌<◌, ◌≡◌, ◌≢◌, inl, inr, refl, ap, sym, ◌∙◌, Bool, true, false, Option,
  none, some, arith, update, Bool-cases, ℕ_discrete, update_cases, update_ne,
}
use cs.Proc.{
  nproc, ProcState, unused, embryo, sleeping, runnable, running, is_unused, is_sleeping, null, Proc,
  Table, set_proc, find_proc,
}

-- Entries that hold a process; those that can run or wait; those that `fork` has finished.
abbrev pub is_up : ProcState → Bool
is_up sleeping = true
is_up runnable = true
is_up running = true
is_up _ = false

abbrev pub is_settled : ProcState → Bool
is_settled unused = false
is_settled embryo = false
is_settled _ = true

-- The parent is another entry, whose process has not ended.
abbrev pub HasParent : Table → ℕ → Option ℕ → Type 0
HasParent t i none = ⊥
HasParent t i (some q) = (q < nproc) × (q ≢ i) × (is_up (t.proc q).state ≡ true)

pub record IsSound (t : Table) : Type 0 where
  pub init_in : t.initproc < nproc
  pub init_up : is_up (t.proc t.initproc).state ≡ true
  pub fresh : (i : ℕ) → i < nproc → (t.proc i).pid < t.nextpid
  pub used : (i : ℕ) → i < nproc → is_unused (t.proc i).state ≡ false → (t.proc i).pid ≢ 0
  pub pids :
      (i j : ℕ)
      → i < nproc
      → j < nproc
      → i ≢ j
      → (t.proc i).pid ≢ 0
      → (t.proc i).pid ≢ (t.proc j).pid
  pub parents :
      (i : ℕ)
      → i < nproc
      → i ≢ t.initproc
      → is_settled (t.proc i).state ≡ true
      → HasParent t i (t.proc i).parent
  pub chans : (i : ℕ) → i < nproc → is_sleeping (t.proc i).state ≡ true → (t.proc i).chan ≢ null

-- What a new value `p` of entry `i` and a new `nextpid` must satisfy.
pub record Fits (t : Table) (i n : ℕ) (p : Proc) : Type 0 where
  pub next : t.nextpid ≤ n
  pub below : p.pid < n
  pub used : is_unused p.state ≡ false → p.pid ≢ 0
  pub apart : (j : ℕ) → j < nproc → i ≢ j → p.pid ≢ 0 → p.pid ≢ (t.proc j).pid
  pub up :
      (j : ℕ)
      → j < nproc
      → i ≢ j
      → (t.proc j).parent ≡ some i
      → is_up (t.proc i).state ≡ true
      → is_up p.state ≡ true
  pub init : i ≡ t.initproc → is_up p.state ≡ true
  pub parent : i ≢ t.initproc → is_settled p.state ≡ true → HasParent t i p.parent
  pub chan : is_sleeping p.state ≡ true → p.chan ≢ null

abbrev pub change : Table → ℕ → ℕ → Proc → Table
change t i n p = record (set_proc t i p) { nextpid = n }

HasParent-change :
    (t : Table) (i n : ℕ) (p : Proc) (j : ℕ) (o : Option ℕ)
    → ((q : ℕ)
        → o ≡ some q
        → is_up (t.proc q).state ≡ true
        → is_up (update t.proc i p q).state ≡ true)
    → HasParent t j o
    → HasParent (change t i n p) j o
HasParent-change t i n p j none up h = h
HasParent-change t i n p j (some q) up h = (h.0, h.1, up q refl h.2)

parent_up :
    (t : Table) (i n : ℕ) (p : Proc) (q : ℕ)
    → q ≢ i
    → is_up (t.proc q).state ≡ true
    → is_up (update t.proc i p q).state ≡ true
parent_up t i n p q ne up = rw (update_ne t.proc i q p (λ e. ne (sym e))) up

own_parent :
    (t : Table) (i n : ℕ) (p : Proc) (o : Option ℕ) (j : ℕ)
    → i ≡ j
    → HasParent t i o
    → HasParent (change t i n p) j o
own_parent t i n p none j e h = h
own_parent t i n p (some q) j e h = (h.0, λ z. h.1 (z ∙ sym e), parent_up t i n p q h.1 h.2)

still_up :
    (t : Table) (i n : ℕ) (p : Proc) (j q : ℕ)
    → Fits t i n p
    → j < nproc
    → i ≢ j
    → (t.proc j).parent ≡ some q
    → is_up (t.proc q).state ≡ true
    → is_up (update t.proc i p q).state ≡ true
still_up t i n p j q f lt ne e up =
    update_cases (λ (r : Proc). is_up r.state ≡ true) t.proc i p q
      (λ eq. f.up j lt ne (e ∙ ap some (sym eq)) (rw eq up)) (λ _. up)

pids_apart :
    (t : Table) (i n : ℕ) (p : Proc) (j k : ℕ)
    → IsSound t
    → Fits t i n p
    → j < nproc
    → k < nproc
    → j ≢ k
    → (update t.proc i p j).pid ≢ 0
    → (update t.proc i p j).pid ≢ (update t.proc i p k).pid
pids_apart t i n p j k h f lj lk ne =
    update_cases (λ (r : Proc). r.pid ≢ 0 → r.pid ≢ (update t.proc i p k).pid) t.proc i p j
      (λ ij.
        update_cases (λ (r : Proc). p.pid ≢ 0 → p.pid ≢ r.pid) t.proc i p k
          (λ ik. absurd (ne (sym ij ∙ ik))) (λ nik. f.apart k lk nik))
      (λ nij.
        update_cases (λ (r : Proc). (t.proc j).pid ≢ 0 → (t.proc j).pid ≢ r.pid) t.proc i p k
          (λ _ nz e. f.apart j lj nij (λ z. nz (e ∙ z)) (sym e)) (λ nik. h.pids j k lj lk ne))

pub change-IsSound :
    (t : Table) (i n : ℕ) (p : Proc) → IsSound t → Fits t i n p → IsSound (change t i n p)
change-IsSound t i n p h f = record {
  init_in = h.init_in;
  init_up =
      update_cases (λ (r : Proc). is_up r.state ≡ true) t.proc i p t.initproc f.init
        (λ _. h.init_up);
  fresh = λ j lt.
      update_cases (λ (r : Proc). r.pid < n) t.proc i p j (λ _. f.below)
        (λ _. let old = h.fresh j lt in let le = f.next in omega arith);
  used = λ j lt.
      update_cases (λ (r : Proc). is_unused r.state ≡ false → r.pid ≢ 0) t.proc i p j (λ _. f.used)
        (λ _. h.used j lt);
  pids = λ j k lj lk ne. pids_apart t i n p j k h f lj lk ne;
  parents = λ j lt ni.
      update_cases (λ (r : Proc). is_settled r.state ≡ true → HasParent (change t i n p) j r.parent)
        t.proc i p j (λ e st. own_parent t i n p p.parent j e (f.parent (λ z. ni (sym e ∙ z)) st))
        (λ ne st.
          HasParent-change t i n p j (t.proc j).parent (λ q eq. still_up t i n p j q f lt ne eq)
            (h.parents j lt ni st));
  chans = λ j lt.
      update_cases (λ (r : Proc). is_sleeping r.state ≡ true → r.chan ≢ null) t.proc i p j
        (λ _. f.chan) (λ _. h.chans j lt);
}

-- `u` differs from `t` only in what its processes are doing: none starts or ends.
pub record SameLife (t u : Table) : Type 0 where
  pub nextpid : u.nextpid ≡ t.nextpid
  pub initproc : u.initproc ≡ t.initproc
  pub pid : (i : ℕ) → (u.proc i).pid ≡ (t.proc i).pid
  pub parent : (i : ℕ) → (u.proc i).parent ≡ (t.proc i).parent
  pub up : (i : ℕ) → is_up (u.proc i).state ≡ is_up (t.proc i).state
  pub settled : (i : ℕ) → is_settled (u.proc i).state ≡ is_settled (t.proc i).state
  pub free : (i : ℕ) → is_unused (u.proc i).state ≡ is_unused (t.proc i).state

HasParent-SameLife :
    (t u : Table) (i : ℕ) (o : Option ℕ) → SameLife t u → HasParent t i o → HasParent u i o
HasParent-SameLife t u i none s h = h
HasParent-SameLife t u i (some q) s h = (h.0, h.1, s.up q ∙ h.2)

pub SameLife-IsSound :
    (t u : Table)
    → SameLife t u
    → IsSound t
    → ((i : ℕ) → i < nproc → is_sleeping (u.proc i).state ≡ true → (u.proc i).chan ≢ null)
    → IsSound u
SameLife-IsSound t u s h chans = record {
  init_in = rw s.initproc h.init_in;
  init_up = rw s.initproc (s.up t.initproc ∙ h.init_up);
  fresh = λ i lt. rw (s.pid i, s.nextpid) (h.fresh i lt);
  used = λ i lt. rw (s.pid i, s.free i) (h.used i lt);
  pids = λ i j li lj ne. rw (s.pid i, s.pid j) (h.pids i j li lj ne);
  parents = λ i lt ne st. rw (s.parent i) (
      HasParent-SameLife t u i (t.proc i).parent s
        (h.parents i lt (λ e. ne (e ∙ sym s.initproc)) (sym (s.settled i) ∙ st)));
  chans = chans;
}

-- The search finds the first entry that passes, or there is none.
pub find_proc_lem :
    (test : Proc → Bool) (f : ℕ → Proc) (k i j : ℕ)
    → find_proc test f k i ≡ some j
    → (i ≤ j) × (j < i + k) × (test (f j) ≡ true)
unfolding find_proc
find_proc_lem test f zero i j h = cc
find_proc_lem test f (suc k) i j h = elim (Bool-cases (test (f i))) [
  | inl e ↦ ground arith
  | inr e ↦ ground (arith, find_proc_lem test f k (i + 1) j)
]

pub find_proc-none :
    (test : Proc → Bool) (f : ℕ → Proc) (k i : ℕ)
    → find_proc test f k i ≡ none
    → (j : ℕ) → i ≤ j
    → j < i + k
    → test (f j) ≡ false
unfolding find_proc
find_proc-none test f zero i h j lo hi = absurd (omega arith)
find_proc-none test f (suc k) i h j lo hi = elim (Bool-cases (test (f i))) [
  | inl e ↦ absurd (ground arith)
  | inr e ↦
      let rest : find_proc test f k (i + 1) ≡ none = ground arith in
      elim (ℕ_discrete i j) [
        | yes eq ↦ rw (← eq) e
        | no ne ↦ find_proc-none test f k (i + 1) rest j (omega arith) (omega arith)
      ]
]

-- What holds when the search finds nothing and when it finds an entry that passes holds of it.
pub find_proc_cases {ℓ} :
    (B : Option ℕ → Type ℓ) (test : Proc → Bool) (f : ℕ → Proc) (k i : ℕ)
    → (find_proc test f k i ≡ none → B none)
    → ((j : ℕ) → i ≤ j → j < i + k → test (f j) ≡ true → B (some j))
    → B (find_proc test f k i)
find_proc_cases B test f k i missing found = split (find_proc test f k i) refl
  where
    split : (o : Option ℕ) → find_proc test f k i ≡ o → B o
    split none e = missing e
    split (some j) e = let (lo, hi, passed) = find_proc_lem test f k i j e in found j lo hi passed
