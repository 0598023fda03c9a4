-- ===== src/Proc/Tests.antt =====
-- The process table at concrete inputs.
use cs.Base.{◌≡◌, ◌≢◌, refl, some, arith, ok}
use cs.Proc.{
  Table, allocproc, take_entry, give_stack, fork_into, schedule, sleep_enter, userinit, exit_zombie,
  find_proc, other,
}
use cs.Proc.Invariant.{IsSound}
use cs.Proc.Steps.{
  boot, booted, Reach, begins, then_step, schedules, allocates, stacks, forks, sleeps,
}
use cs.Proc.Steps.{Reach-IsSound}
use cs.Proc.Exit.{exit_zombie-childless}

-- Init runs, forks a child and sleeps; the child is runnable.
abbrev init_runs : Table
init_runs = (schedule 64 0 (booted 1 1 7)).0

abbrev child_allocated : Table
child_allocated = (give_stack 5 1 (take_entry init_runs).0).0

abbrev two_processes : Table
two_processes = (fork_into 0 1 9 child_allocated).0

abbrev init_sleeps : Table
init_sleeps = sleep_enter 0 (other 3) two_processes

abbrev child_runs : Table
child_runs = (schedule 64 0 init_sleeps).0

first_boot : userinit 1 1 7 boot ≡ ok (booted 1 1 7)
unfolding userinit allocproc take_entry give_stack find_proc
first_boot = refl

child_runs-Reach : Reach 1 1 7 child_runs
unfolding schedule take_entry give_stack find_proc fork_into sleep_enter
child_runs-Reach =
    then_step
      (then_step
        (then_step
          (then_step
            (then_step (then_step (begins first_boot) (schedules 64 0 (omega arith)))
              (allocates (omega arith)))
            (stacks 5 1 (omega arith) refl))
          (forks 0 1 9 (omega arith) (omega arith) refl refl))
        (sleeps 0 (other 3) (omega arith) refl (λ z. cc)))
      (schedules 64 0 (omega arith))

Reach-IsSound_example : IsSound child_runs
Reach-IsSound_example = Reach-IsSound child_runs-Reach

init_differs : child_runs.initproc ≢ 1
unfolding schedule take_entry give_stack find_proc fork_into sleep_enter
init_differs = λ e. omega arith

exit_zombie-childless_example : ((exit_zombie 1 child_runs).proc 2).parent ≢ some 1
exit_zombie-childless_example = exit_zombie-childless 1 child_runs init_differs 2 (omega arith)
