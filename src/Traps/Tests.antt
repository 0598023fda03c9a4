-- ===== src/Traps/Tests.antt =====
-- A process that takes a page fault and a trap that no index but the last is for, and calls getpid
-- and a number without a handler.
use cs.Base.{ℕ, ◌%◌, ◌^◌, ◌≡◌, refl, [], ◌∷◌, List}
use cs.Traps.{Task, count_syscalls, sys_count_traps, trapnos}
use cs.Traps.Totals.{
  Event, traps, calls, after_events, traps_named, calls_known, fresh, sys_count_traps-after_events,
}

abbrev answers : ℕ → Task → Task × ℕ
answers num p = (p, 7)

abbrev some_events : List Event
some_events = traps 14 ∷ calls 11 ∷ traps 255 ∷ calls 23 ∷ []

one_of_each : (traps_named some_events ≡ 1) × (calls_known some_events ≡ 1)
unfolding traps_named calls_known trapnos
one_of_each = (refl, refl)

sys_count_traps-after_events_example :
    ((sys_count_traps (after_events answers some_events fresh)).2
      ≡ traps_named some_events % 2 ^ 32)
    × ((count_syscalls (after_events answers some_events fresh)).1
        ≡ calls_known some_events % 2 ^ 32)
sys_count_traps-after_events_example =
    sys_count_traps-after_events answers some_events (λ num p. (refl, refl))
