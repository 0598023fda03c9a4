-- ===== src/Proc/Blocking.antt =====
-- Sleeping, waking, killing and scheduling keep the table sound.
use cs.Base.{
  ℕ, ◌+◌, ◌≤◌, ◌<◌, ◌≡◌, ◌≢◌, inl, inr, refl, ap, sym, true, false, Option, arith, ◌==◌, update,
  Bool-cases, update_cases, subst,
}
use cs.Proc.{
  nproc, ProcState, unused, embryo, sleeping, runnable, running, zombie, is_unused, is_sleeping,
  is_runnable, is_running, Chan, null, chan_eq, Proc, Table, set_proc, wake, wakeup1, sleep_enter,
  sleep_leave, kill, killed_at, rouse, scheduled, yield_cpu, schedule,
}
use cs.Proc.Invariant.{
  IsSound, change-IsSound, SameLife-IsSound, is_up, is_settled, find_proc_cases,
}

pub is_up-is_settled : (s : ProcState) → is_up s ≡ true → is_settled s ≡ true
is_up-is_settled unused h = cc
is_up-is_settled embryo h = cc
is_up-is_settled sleeping h = refl
is_up-is_settled runnable h = refl
is_up-is_settled running h = refl
is_up-is_settled zombie h = cc

pub is_up-is_unused : (s : ProcState) → is_up s ≡ true → is_unused s ≡ false
is_up-is_unused unused h = cc
is_up-is_unused embryo h = cc
is_up-is_unused sleeping h = refl
is_up-is_unused runnable h = refl
is_up-is_unused running h = refl
is_up-is_unused zombie h = cc

-- A live process stays one, with a channel if it sleeps.
pub live-IsSound :
    (t : Table) (i : ℕ) (p : Proc)
    → IsSound t
    → i < nproc
    → is_up (t.proc i).state ≡ true
    → is_up p.state ≡ true
    → p.pid ≡ (t.proc i).pid
    → p.parent ≡ (t.proc i).parent
    → (is_sleeping p.state ≡ true → p.chan ≢ null)
    → IsSound (set_proc t i p)
live-IsSound t i p h lt up up' hp hq hc = change-IsSound t i t.nextpid p h (record {
  next = omega arith;
  below = rw hp (h.fresh i lt);
  used = λ _. rw hp (h.used i lt (is_up-is_unused (t.proc i).state up));
  apart = λ j lj ne. rw hp (h.pids i j lt lj ne);
  up = λ _ _ _ _ _. up';
  init = λ _. up';
  parent = λ ne _. rw hq (h.parents i lt ne (is_up-is_settled (t.proc i).state up));
  chan = hc;
})

pub is_running-is_up : (s : ProcState) → is_running s ≡ true → is_up s ≡ true
is_running-is_up unused h = cc
is_running-is_up embryo h = cc
is_running-is_up sleeping h = cc
is_running-is_up runnable h = cc
is_running-is_up running h = refl
is_running-is_up zombie h = cc

pub is_runnable-is_up : (s : ProcState) → is_runnable s ≡ true → is_up s ≡ true
is_runnable-is_up unused h = cc
is_runnable-is_up embryo h = cc
is_runnable-is_up sleeping h = cc
is_runnable-is_up runnable h = refl
is_runnable-is_up running h = cc
is_runnable-is_up zombie h = cc

pub is_running-awake : (s : ProcState) → is_running s ≡ true → is_sleeping s ≡ false
is_running-awake unused h = cc
is_running-awake embryo h = cc
is_running-awake sleeping h = cc
is_running-awake runnable h = cc
is_running-awake running h = refl
is_running-awake zombie h = cc

pub sleep_enter-IsSound :
    (t : Table) (i : ℕ) (c : Chan)
    → IsSound t
    → i < nproc
    → is_running (t.proc i).state ≡ true
    → c ≢ null
    → IsSound (sleep_enter i c t)
unfolding sleep_enter
sleep_enter-IsSound t i c h lt r nc =
    live-IsSound t i (record (t.proc i) { chan = c; state = sleeping }) h lt
      (is_running-is_up (t.proc i).state r) refl refl refl (λ _. nc)

pub sleep_leave-IsSound :
    (t : Table) (i : ℕ)
    → IsSound t
    → i < nproc
    → is_running (t.proc i).state ≡ true
    → IsSound (sleep_leave i t)
unfolding sleep_leave
sleep_leave-IsSound t i h lt r =
    live-IsSound t i (record (t.proc i) { chan = null }) h lt (is_running-is_up (t.proc i).state r)
      (is_running-is_up (t.proc i).state r) refl refl
      (λ s. let awake = is_running-awake (t.proc i).state r in cc)

pub yield_cpu-IsSound :
    (t : Table) (i : ℕ)
    → IsSound t
    → i < nproc
    → is_running (t.proc i).state ≡ true
    → IsSound (yield_cpu i t)
unfolding yield_cpu
yield_cpu-IsSound t i h lt r =
    live-IsSound t i (record (t.proc i) { state = runnable }) h lt
      (is_running-is_up (t.proc i).state r) refl refl refl (λ s. cc)

pub schedule-IsSound :
    (k i : ℕ) (t : Table) → i + k ≤ nproc → IsSound t → IsSound (schedule k i t).0
unfolding schedule
schedule-IsSound k i t le h =
    find_proc_cases (λ (o : Option ℕ). IsSound (scheduled t o).0) (λ p. is_runnable p.state) t.proc
      k i (λ _. h)
      (λ j lo hi r.
        live-IsSound t j (record (t.proc j) { state = running }) h (omega arith)
          (is_runnable-is_up (t.proc j).state r) refl refl refl (λ s. cc))

-- A process keeps its life when a sleeping state becomes a runnable one.
pub record Roused (p q : Proc) : Type 0 where
  pub pid : q.pid ≡ p.pid
  pub parent : q.parent ≡ p.parent
  pub chan : q.chan ≡ p.chan
  pub up : is_up q.state ≡ is_up p.state
  pub settled : is_settled q.state ≡ is_settled p.state
  pub free : is_unused q.state ≡ is_unused p.state
  pub sleeps : is_sleeping q.state ≡ true → is_sleeping p.state ≡ true

is_sleeping-sleeping : (s : ProcState) → is_sleeping s ≡ true → s ≡ sleeping
is_sleeping-sleeping unused h = cc
is_sleeping-sleeping embryo h = cc
is_sleeping-sleeping sleeping h = refl
is_sleeping-sleeping runnable h = cc
is_sleeping-sleeping running h = cc
is_sleeping-sleeping zombie h = cc

unchanged-Roused : (p : Proc) → Roused p p
unchanged-Roused p = record {
  pid = refl;
  parent = refl;
  chan = refl;
  up = refl;
  settled = refl;
  free = refl;
  sleeps = λ s. s;
}

runnable-Roused : (p : Proc) → is_sleeping p.state ≡ true → Roused p (record p { state = runnable })
runnable-Roused p s =
    let at = is_sleeping-sleeping p.state s in
    record {
      pid = refl;
      parent = refl;
      chan = refl;
      up = ap is_up (sym at);
      settled = ap is_settled (sym at);
      free = ap is_unused (sym at);
      sleeps = λ h. cc;
    }

wake-Roused : (c : Chan) (p : Proc) → Roused p (wake c p)
unfolding wake
wake-Roused c p = elim (Bool-cases (is_sleeping p.state)) [
  | inl e ↦ elim (Bool-cases (chan_eq p.chan c)) [
    | inl d ↦ rw (e, d) (runnable-Roused p e)
    | inr d ↦ rw (e, d) (unchanged-Roused p)
  ]
  | inr e ↦ rw e (unchanged-Roused p)
]

killed-Roused : (p : Proc) → Roused p (record p { killed = true })
killed-Roused p = record {
  pid = refl;
  parent = refl;
  chan = refl;
  up = refl;
  settled = refl;
  free = refl;
  sleeps = λ s. s;
}

rouse-Roused : (p : Proc) → Roused p (rouse p)
unfolding rouse
rouse-Roused p = elim (Bool-cases (is_sleeping p.state)) [
  | inl e ↦
      let r = runnable-Roused p e in
      rw e (record {
        pid = refl;
        parent = refl;
        chan = refl;
        up = r.up;
        settled = r.settled;
        free = r.free;
        sleeps = λ h. cc;
      })
  | inr e ↦ rw e (killed-Roused p)
]

-- A table all of whose processes are as they were or roused.
Roused-IsSound :
    (t : Table) (f : ℕ → Proc)
    → ((i : ℕ) → Roused (t.proc i) (f i))
    → IsSound t
    → IsSound (record t { proc = f })
Roused-IsSound t f r h =
    SameLife-IsSound t (record t { proc = f })
      (record {
        nextpid = refl;
        initproc = refl;
        pid = λ i. (r i).pid;
        parent = λ i. (r i).parent;
        up = λ i. (r i).up;
        settled = λ i. (r i).settled;
        free = λ i. (r i).free;
      })
      h (λ i lt s. rw (r i).chan (h.chans i lt ((r i).sleeps s)))

pub wakeup1-IsSound : (c : Chan) (t : Table) → IsSound t → IsSound (wakeup1 c t)
unfolding wakeup1
wakeup1-IsSound c t h = Roused-IsSound t (λ i. wake c (t.proc i)) (λ i. wake-Roused c (t.proc i)) h

pub wakeup1-parent :
    (c : Chan) (t : Table) (i : ℕ) → ((wakeup1 c t).proc i).parent ≡ (t.proc i).parent
unfolding wakeup1
wakeup1-parent c t i = (wake-Roused c (t.proc i)).parent

pub wakeup1-up :
    (c : Chan) (t : Table) (i : ℕ) → is_up ((wakeup1 c t).proc i).state ≡ is_up (t.proc i).state
unfolding wakeup1
wakeup1-up c t i = (wake-Roused c (t.proc i)).up

pub kill-IsSound : (pid : ℕ) (t : Table) → IsSound t → IsSound (kill pid t).0
unfolding kill
kill-IsSound pid t h =
    find_proc_cases (λ (o : Option ℕ). IsSound (killed_at t o).0) (λ p. p.pid == pid) t.proc nproc 0
      (λ _. h)
      (λ j lo hi e.
        Roused-IsSound t (update t.proc j (rouse (t.proc j)))
          (λ i.
            update_cases (Roused (t.proc i)) t.proc j (rouse (t.proc j)) i
              (λ ji. subst (λ k. Roused (t.proc k) (rouse (t.proc j))) ji (rouse-Roused (t.proc j)))
              (λ _. unchanged-Roused (t.proc i)))
          h)
