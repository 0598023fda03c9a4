-- ===== src/Proc.antt =====
-- HW2/src/proc.c and proc.h: the process table, and what creates, blocks, wakes, ends and reaps
-- processes.
pub mod Invariant
pub mod Blocking
pub mod Lifecycle
pub mod Exit
pub mod Steps
pub mod Tests
use cs.Base.{
  ℕ, zero, suc, ◌+◌, ◌-◌, ◌%◌, ◌^◌, Bool, true, false, not, ◌&&◌, ◌||◌, Option, none, some, List,
  [], ◌∷◌, ◌++◌, ◌==◌, if◌then◌else◌, update, Outcome, ok, panic, ◌>>=◌, replicate, map,
}

abbrev pub nproc : ℕ
nproc = 64

-- `enum procstate`
pub data ProcState : Type 0 where
  unused embryo sleeping runnable running zombie : ProcState

abbrev pub is_unused : ProcState → Bool
is_unused unused = true
is_unused _ = false

abbrev pub is_sleeping : ProcState → Bool
is_sleeping sleeping = true
is_sleeping _ = false

abbrev pub is_runnable : ProcState → Bool
is_runnable runnable = true
is_runnable _ = false

abbrev pub is_running : ProcState → Bool
is_running running = true
is_running _ = false

abbrev pub is_zombie : ProcState → Bool
is_zombie zombie = true
is_zombie _ = false

-- An address that a process sleeps on: none, an entry of the table, or any other.
pub data Chan : Type 0 where
  null : Chan
  of_proc other : ℕ → Chan

abbrev pub chan_eq : Chan → Chan → Bool
chan_eq null null = true
chan_eq (of_proc i) (of_proc j) = i == j
chan_eq (other i) (other j) = i == j
chan_eq _ _ = false

abbrev pub parent_eq : Option ℕ → ℕ → Bool
parent_eq none j = false
parent_eq (some i) j = i == j

-- `struct proc`, but for the trap frame and the context, which lie in the kernel stack. Pointers to
-- entries of the table are their indices, other pointers numbers, with 0 for null.
pub record Proc : Type 0 where
  pub sz : ℕ
  pub pgdir : ℕ
  pub kstack : ℕ
  pub state : ProcState
  pub pid : ℕ
  pub parent : Option ℕ
  pub chan : Chan
  pub killed : Bool
  pub ofile : List ℕ
  pub cwd : ℕ
  pub name : List ℕ
  pub trapcounts : List ℕ
  pub syscounts : List ℕ

-- `ptable.proc`, of which the entries below `nproc` exist, with `nextpid` and `initproc`.
pub record Table : Type 0 where
  pub proc : ℕ → Proc
  pub nextpid : ℕ
  pub initproc : ℕ

abbrev pub set_proc : Table → ℕ → Proc → Table
set_proc t i p = record t { proc = update t.proc i p }

-- What the code calls in other parts of the kernel.
pub data Call : Type 0 where
  kfree freevm filedup idup fileclose iput : ℕ → Call
  begins_op ends_op : Call

-- The first index from `i` on, within `k`, whose entry passes the test.
pub find_proc : (Proc → Bool) → (ℕ → Proc) → ℕ → ℕ → Option ℕ
find_proc test f zero i = none
find_proc test f (suc k) i =
    let rest = find_proc test f k (i + 1) in if test (f i) then some i else rest

abbrev pub entered : Table → Option ℕ → Table × Option ℕ
entered t none = (t, none)
entered t (some i) =
    let born = record (t.proc i) { state = embryo; pid = t.nextpid } in
    (set_proc (record t { nextpid = (t.nextpid + 1) % 2 ^ 32 }) i born, some i)

-- `allocproc` up to the `release` after which it calls `kalloc`: the table and the entry. `nextpid`
-- is an `int`, negative from 2 ^ 31 on.
pub take_entry : Table → Table × Option ℕ
take_entry t = entered t (find_proc (λ p. is_unused p.state) t.proc nproc 0)

-- The rest, with the result of `kalloc` (0 for none).
pub give_stack : ℕ → ℕ → Table → Table × Option ℕ
give_stack page i t =
    let p = record (t.proc i) { kstack = page } in
    if page == 0
    then (set_proc t i (record p { state = unused }), none)
    else (set_proc t i p, some i)

abbrev pub stacked : ℕ → Table × Option ℕ → Table × Option ℕ
stacked page (t, none) = (t, none)
stacked page (t, some i) = give_stack page i t

-- Both parts, with nothing between them.
pub allocproc : ℕ → Table → Table × Option ℕ
allocproc page t = stacked page (take_entry t)

-- "initcode"
abbrev pub initcode : List ℕ
initcode = 105 ∷ 110 ∷ 105 ∷ 116 ∷ 99 ∷ 111 ∷ 100 ∷ 101 ∷ 0 ∷ []

abbrev zero_first : List ℕ → List ℕ
zero_first [] = []
zero_first (x ∷ s) = 0 ∷ s

-- `safestrcpy`: the array `s` after it. The 0 that ends `t` is copied, and one more 0 is written.
pub safestrcpy : List ℕ → List ℕ → ℕ → List ℕ
safestrcpy s t zero = s
safestrcpy s t (suc zero) = zero_first s
safestrcpy [] t (suc (suc n)) = []
safestrcpy (x ∷ s) [] (suc (suc n)) = x ∷ s
safestrcpy (x ∷ s) (c ∷ t) (suc (suc n)) =
    let rest = safestrcpy s t (suc n) in if c == 0 then 0 ∷ zero_first s else c ∷ rest

-- `np->ofile[i] = filedup(curproc->ofile[i])` for the files that are open
pub dup_files : List ℕ → List Call
dup_files [] = []
dup_files (f ∷ fs) = let rest = dup_files fs in if f == 0 then rest else filedup f ∷ rest

pub copy_files : List ℕ → List ℕ → List ℕ
copy_files [] old = old
copy_files (f ∷ fs) [] = []
copy_files (f ∷ fs) (g ∷ gs) = (if f == 0 then g else f) ∷ copy_files fs gs

-- The child's entry when `fork` has copied the process at `cur` into it.
abbrev pub fork_child : ℕ → ℕ → Table → ℕ → Proc
fork_child cur dir t i =
    let p = t.proc i in
    let c = t.proc cur in
    record p {
      pgdir = dir;
      sz = c.sz;
      parent = some cur;
      ofile = copy_files c.ofile p.ofile;
      cwd = c.cwd;
      name = safestrcpy p.name c.name 16;
      state = runnable;
    }

-- `fork` by the process at `cur`, from the allocated entry `i` on, with the result of `copyuvm`
-- (0 for none); the result `none` is -1.
pub fork_into : ℕ → ℕ → ℕ → Table → Table × List Call × Option ℕ
fork_into cur i dir t =
    let p = t.proc i in
    let c = t.proc cur in
    if dir == 0
    then (
      set_proc t i (record p { pgdir = 0; kstack = 0; state = unused }),
      kfree p.kstack ∷ [],
      none,
    )
    else (set_proc t i (fork_child cur dir t i), dup_files c.ofile ++ (idup c.cwd ∷ []), some p.pid)

pub fork : ℕ → ℕ → ℕ → Table → Table × List Call × Option ℕ
fork cur page dir t =
    let (t1, found) = allocproc page t in
    elim found [ none ↦ (t1, [], none) | some i ↦ fork_into cur i dir t1 ]

abbrev pub started : ℕ → ℕ → Table × Option ℕ → Outcome Table
started dir root (t, none) = panic
started dir root (t, some i) =
    let p = t.proc i in
    let born = record p {
      pgdir = dir;
      sz = 4096;
      name = safestrcpy p.name initcode 16;
      cwd = root;
      state = runnable;
    } in
    if dir == 0 then panic else ok (record (set_proc t i born) { initproc = i })

-- `userinit`, with the results of `kalloc`, `setupkvm` (0 for none) and `namei("/")`. Where
-- `allocproc` fails the code follows a null pointer, which counts as a panic here.
pub userinit : ℕ → ℕ → ℕ → Table → Outcome Table
userinit page dir root t = started dir root (allocproc page t)

-- `if(p->state == SLEEPING && p->chan == chan) p->state = RUNNABLE;`
pub wake : Chan → Proc → Proc
wake c p = if is_sleeping p.state && chan_eq p.chan c then record p { state = runnable } else p

pub wakeup1 : Chan → Table → Table
wakeup1 c t = record t { proc = λ i. wake c (t.proc i) }

-- `sleep` up to its call of `sched`, and after it.
pub sleep_enter : ℕ → Chan → Table → Table
sleep_enter i c t = set_proc t i (record (t.proc i) { chan = c; state = sleeping })

pub sleep_leave : ℕ → Table → Table
sleep_leave i t = set_proc t i (record (t.proc i) { chan = null })

-- What `kill` writes to the entry that it finds.
pub rouse : Proc → Proc
rouse p =
    let q = record p { killed = true } in
    if is_sleeping q.state then record q { state = runnable } else q

abbrev pub killed_at : Table → Option ℕ → Table × Bool
killed_at t none = (t, false)
killed_at t (some i) = (set_proc t i (rouse (t.proc i)), true)

-- The table, and whether the result is 0.
pub kill : ℕ → Table → Table × Bool
kill pid t = killed_at t (find_proc (λ p. p.pid == pid) t.proc nproc 0)

pub close_files : List ℕ → List Call
close_files [] = []
close_files (f ∷ fs) = let rest = close_files fs in if f == 0 then rest else fileclose f ∷ rest

-- One round of the loop of `exit` that passes children to init.
pub abandon : ℕ → ℕ → Table → Table
abandon cur i t =
    let p = t.proc i in
    let t' = set_proc t i (record p { parent = some t.initproc }) in
    if parent_eq p.parent cur
    then (if is_zombie p.state then wakeup1 (of_proc t.initproc) t' else t')
    else t

pub abandon_from : ℕ → ℕ → ℕ → Table → Table
abandon_from cur zero i t = t
abandon_from cur (suc k) i t = abandon_from cur k (i + 1) (abandon cur i t)

abbrev pub chan_of : Option ℕ → Chan
chan_of none = null
chan_of (some i) = of_proc i

-- `exit` up to its first taking of `ptable.lock`; `panic` for init.
pub exit_files : ℕ → Table → Outcome (Table × List Call)
exit_files cur t =
    let c = t.proc cur in
    if cur == t.initproc
    then panic
    else ok (
      set_proc t cur (record c { ofile = map (λ f. 0) c.ofile; cwd = 0 }),
      close_files c.ofile ++ (begins_op ∷ iput c.cwd ∷ ends_op ∷ []),
    )

-- The rest of `exit`, under `ptable.lock`, up to its call of `sched`.
pub exit_zombie : ℕ → Table → Table
exit_zombie cur t =
    let woken = wakeup1 (chan_of (t.proc cur).parent) t in
    let passed = abandon_from cur nproc 0 woken in
    set_proc passed cur (record (passed.proc cur) { state = zombie })

abbrev pub clear_name : List ℕ → List ℕ
clear_name [] = []
clear_name (c ∷ cs) = 0 ∷ cs

-- The fields that `wait` clears.
pub reap : Proc → Proc
reap p = record p {
  kstack = 0;
  pid = 0;
  parent = none;
  name = clear_name p.name;
  killed = false;
  state = unused;
  trapcounts = map (λ c. 0) p.trapcounts;
  syscounts = map (λ c. 0) p.syscounts;
}

-- How one scan of `wait` ends: with a child's pid, with -1, or in `sleep(curproc, ...)`.
pub data WaitEnding : Type 0 where
  reaped : ℕ → WaitEnding
  failed waits : WaitEnding

-- How `wait` goes on after its scan, from the zombie and the child that it has found.
abbrev pub waited : ℕ → Table → Option ℕ → Option ℕ → Table × List Call × WaitEnding
waited cur t (some i) havekids =
    let p = t.proc i in (set_proc t i (reap p), kfree p.kstack ∷ freevm p.pgdir ∷ [], reaped p.pid)
waited cur t none none = (t, [], failed)
waited cur t none (some k) =
    if (t.proc cur).killed then (t, [], failed) else (sleep_enter cur (of_proc cur) t, [], waits)

pub wait : ℕ → Table → Table × List Call × WaitEnding
wait cur t =
    waited cur t (find_proc (λ p. parent_eq p.parent cur && is_zombie p.state) t.proc nproc 0)
      (find_proc (λ p. parent_eq p.parent cur) t.proc nproc 0)

-- `yield` up to its call of `sched`.
pub yield_cpu : ℕ → Table → Table
yield_cpu i t = set_proc t i (record (t.proc i) { state = runnable })

abbrev pub scheduled : Table → Option ℕ → Table × Option ℕ
scheduled t none = (t, none)
scheduled t (some j) = (set_proc t j (record (t.proc j) { state = running }), some j)

-- The scheduler's loop from entry `i` on finds a process and makes it run.
pub schedule : ℕ → ℕ → Table → Table × Option ℕ
schedule k i t = scheduled t (find_proc (λ p. is_runnable p.state) t.proc k i)
