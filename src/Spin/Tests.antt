-- ===== src/Spin/Tests.antt =====
-- Two processors and one lock.
use cs.Base.{◌≡◌, inl, refl, true, false, List, [], ◌∷◌, none, ok, Ensures}
use cs.Spin.{Cpu, Machine, initlock, acquire_xchg, acquire_own, holding, release_clear, set_lock}
use cs.Spin.Nesting.{Call, pushes, pops, run, Balanced, no_calls, nested, Restored, run-Restored}
use cs.Spin.Exclusion.{
  nobody, taken, owned, FindsOwner, World, Step, Reach, IsExclusive, with_holder, Reach-IsExclusive,
}

abbrev enabled : Cpu
enabled = record { ncli = 0; intena = false; flag = true }

abbrev nest : List Call
nest = pushes ∷ pushes ∷ pops ∷ pops ∷ []

nest-Balanced : Balanced nest
nest-Balanced = nested {xs = pushes ∷ pops ∷ []} (nested no_calls no_calls) no_calls

run-Restored_example : (q : Cpu) × (run nest enabled ≡ ok q) × Restored enabled q
run-Restored_example = run-Restored enabled nest-Balanced (inl refl)

abbrev idle : World
idle = record {
  machine = record { cpus = λ _. enabled; locks = λ _. initlock };
  holder = λ _. nobody;
}

abbrev locked : Machine
locked = set_lock idle.machine 3 (record { locked = true; cpu = none })

-- Processor 1 gets lock 3.
after_xchg : Reach (with_holder idle locked 3 (taken 1))
unfolding acquire_xchg
after_xchg = Reach.then_step (Reach.begins (λ _. enabled)) (Step.takes {w = idle} 1 3 locked refl)

-- It owns the lock after the rest of `acquire`.
abbrev owning : World
owning = with_holder (with_holder idle locked 3 (taken 1)) (acquire_own 1 3 locked) 3 (owned 1)

after_acquire : Reach owning
after_acquire = Reach.then_step after_xchg (Step.owns 1 3 refl)

Reach-IsExclusive_example :
    IsExclusive owning
    × FindsOwner owning 1 3 (holding 1 (owning.machine.locks 3) enabled)
    × Ensures (λ _. owning.holder 3 ≡ owned 1) (release_clear 1 3 owning.machine)
Reach-IsExclusive_example = Reach-IsExclusive 1 3 enabled after_acquire
