-- ===== src/Traps/Totals.antt =====
-- HW2/src/trap.c, HW2/src/syscall.c: what countTraps reports after any traps and system calls.
use cs.Base.{
  ℕ, zero, suc, ◌+◌, ◌%◌, ◌^◌, ◌<◌, ◌≤◌, ◌≡◌, ◌⊎◌, inl, inr, refl, sym, ap, ◌∙◌, arith, Bool, true,
  false, ◌&&◌, List, [], ◌∷◌, ◌==◌, ltb, leb, if◌then◌else◌, Bool-cases, update, update_ne,
  update_self, ℕ_discrete,
}
use cs.Traps.{
  Task, trapnos, count_up, count_from, count_syscalls, sys_count_traps, count_trap, syscall,
}

-- The sum of `n` counters from `i` on, over the numbers without bound
sum_from : ℕ → ℕ → (ℕ → ℕ) → ℕ
sum_from zero i counts = 0
sum_from (suc n) i counts = counts i + sum_from n (i + 1) counts

count_from-total :
    (n i c : ℕ) (counts : ℕ → ℕ)
    → c < 2 ^ 32
    → (count_from n i counts c).1 ≡ (c + sum_from n i counts) % 2 ^ 32
unfolding count_from sum_from
count_from-total zero i c counts lt = omega arith
count_from-total (suc n) i c counts lt = elim (Bool-cases (counts i == 0)) [
  | inl e ↦
      let z : counts i ≡ 0 = ground arith in
      let rest = count_from-total n (i + 1) c counts lt in rw e (omega (arith, rest, z))
  | inr e ↦
      let rest = count_from-total n (i + 1) ((c + counts i) % 2 ^ 32) counts (omega arith) in
      rw e (omega (arith, rest))
]

sum-outside :
    (n i j v : ℕ) (counts : ℕ → ℕ)
    → (j < i) ⊎ (i + n ≤ j)
    → sum_from n i (update counts j v) ≡ sum_from n i counts
unfolding sum_from
sum-outside zero i j v counts h = refl
sum-outside (suc n) i j v counts h =
    let here = update_ne counts j i v (omega arith) in
    let rest = sum-outside n (i + 1) j v counts (omega arith) in omega (arith, here, rest)

sum-inside :
    (n i j v : ℕ) (counts : ℕ → ℕ)
    → i ≤ j
    → j < i + n
    → sum_from n i (update counts j v) + counts j ≡ sum_from n i counts + v
unfolding sum_from
sum-inside zero i j v counts le lt = absurd (omega arith)
sum-inside (suc n) i j v counts le lt = elim (ℕ_discrete j i) [
  | yes e ↦
      let here : update counts j v i ≡ v =
        ap (update counts j v) (sym e) ∙ update_self counts j v in
      let same : counts j ≡ counts i = ap counts e in
      let rest = sum-outside n (i + 1) j v counts (omega arith) in omega (arith, here, same, rest)
  | no ne ↦
      let here = update_ne counts j i v ne in
      let rest = sum-inside n (i + 1) j v counts (omega arith) (omega arith) in
      omega (arith, here, rest)
]

-- What one more event adds to a total
abbrev pub add_one : Bool → ℕ → ℕ
add_one true n = n + 1
add_one false n = n

abbrev pub is_among : ℕ → ℕ → Bool
is_among i j = leb i j && ltb j (i + 22)

total_up :
    (i j : ℕ) (counts : ℕ → ℕ)
    → (count_from 22 i (count_up counts j) 0).1
      ≡ add_one (is_among i j) (count_from 22 i counts 0).1 % 2 ^ 32
total_up i j counts =
    let v = (counts j + 1) % 2 ^ 32 in
    let before = count_from-total 22 i 0 counts (omega arith) in
    let after = count_from-total 22 i 0 (update counts j v) (omega arith) in
    elim (Bool-cases (is_among i j)) [
      | inl b ↦
          let le : i ≤ j = ground arith in
          let lt : j < i + 22 = ground arith in
          let sum = sum-inside 22 i j v counts le lt in rw b (omega (arith, before, after, sum))
      | inr b ↦
          let away : (j < i) ⊎ (i + 22 ≤ j) = ground arith in
          let sum = sum-outside 22 i j v counts away in rw b (omega (arith, before, after, sum))
    ]

-- What happens to a process, the latest first in a list: a trap of some number, or a system call that it asks for.
pub data Event : Type 0 where
  traps : ℕ → Event
  calls : ℕ → Event

module _ (run : ℕ → Task → Task × ℕ) where
  abbrev pub happens : Event → Task → Task
  happens (traps t) p = count_trap t p
  happens (calls num) p = syscall run (record p { eax = num })

  pub after_events : List Event → Task → Task
  after_events [] p = p
  after_events (e ∷ es) p = happens e (after_events es p)

-- How many of the traps have a name other than the last, and of the calls a handler
unfoldable pub traps_named : List Event → ℕ
traps_named [] = 0
traps_named (traps t ∷ es) = add_one (ltb (trapnos t) 22) (traps_named es)
traps_named (calls num ∷ es) = traps_named es

unfoldable pub calls_known : List Event → ℕ
calls_known [] = 0
calls_known (traps t ∷ es) = calls_known es
calls_known (calls num ∷ es) = add_one (ltb 0 num && ltb num 23) (calls_known es)

-- A handler leaves the counters of the process alone.
abbrev pub LeavesCounts : (ℕ → Task → Task × ℕ) → Type 0
LeavesCounts run =
    (num : ℕ) (p : Task)
    → ((run num p).0.trapcounts ≡ p.trapcounts) × ((run num p).0.syscounts ≡ p.syscounts)

abbrev pub fresh : Task
fresh = record { trapcounts = λ i. 0; syscounts = λ i. 0; eax = 0 }

add_one_mod : (b : Bool) (x y : ℕ) → x ≡ y % 2 ^ 32 → add_one b x % 2 ^ 32 ≡ add_one b y % 2 ^ 32
add_one_mod true x y e = omega arith
add_one_mod false x y e = omega arith

among_traps : (t : ℕ) → is_among 0 t ≡ ltb t 22
among_traps t = ground arith

among_calls : (num : ℕ) → is_among 1 num ≡ (ltb 0 num && ltb num 23)
among_calls num = ground arith

nothing_yet : (i : ℕ) → (count_from 22 i (λ j. 0) 0).1 ≡ 0
unfolding count_from
nothing_yet i = refl

module _ (run : ℕ → Task → Task × ℕ) (h : LeavesCounts run) where
  syscall-trapcounts : (p : Task) → (syscall run p).trapcounts ≡ p.trapcounts
  unfolding syscall
  syscall-trapcounts p = elim (Bool-cases (ltb 0 p.eax && ltb p.eax 23)) [
    | inl b ↦ rw b ((h p.eax (record p { syscounts = count_up p.syscounts p.eax })).0)
    | inr b ↦ rw b refl
  ]

  syscall-syscounts :
      (p : Task)
      → (syscall run p).syscounts
        ≡ (if ltb 0 p.eax && ltb p.eax 23 then count_up p.syscounts p.eax else p.syscounts)
  unfolding syscall
  syscall-syscounts p = elim (Bool-cases (ltb 0 p.eax && ltb p.eax 23)) [
    | inl b ↦ rw b ((h p.eax (record p { syscounts = count_up p.syscounts p.eax })).1)
    | inr b ↦ rw b refl
  ]

  traps_total :
      (es : List Event)
      → (count_from 22 0 (after_events run es fresh).trapcounts 0).1 ≡ traps_named es % 2 ^ 32
  unfolding after_events traps_named count_trap
  traps_total [] = nothing_yet 0
  traps_total (traps t ∷ es) =
      let counts = (after_events run es fresh).trapcounts in
      let total = (count_from 22 0 counts 0).1 in
      total_up 0 (trapnos t) counts
      ∙ ap (λ b. add_one b total % 2 ^ 32) (among_traps (trapnos t))
      ∙ add_one_mod (ltb (trapnos t) 22) total (traps_named es) (traps_total es)
  traps_total (calls num ∷ es) =
      ap (λ counts. (count_from 22 0 counts 0).1)
        (syscall-trapcounts (record (after_events run es fresh) { eax = num }))
      ∙ traps_total es

  calls_total :
      (es : List Event)
      → (count_from 22 1 (after_events run es fresh).syscounts 0).1 ≡ calls_known es % 2 ^ 32
  unfolding after_events calls_known count_trap
  calls_total [] = nothing_yet 1
  calls_total (traps t ∷ es) = calls_total es
  calls_total (calls num ∷ es) =
      let p = after_events run es fresh in
      let total = (count_from 22 1 p.syscounts 0).1 in
      ap (λ counts. (count_from 22 1 counts 0).1) (syscall-syscounts (record p { eax = num }))
      ∙ elim (Bool-cases (ltb 0 num && ltb num 23)) [
        | inl b ↦
            let among : is_among 1 num ≡ true = among_calls num ∙ b in
            let step = add_one_mod true total (calls_known es) (calls_total es) in
            rw b (total_up 1 num p.syscounts ∙ ap (λ c. add_one c total % 2 ^ 32) among ∙ step)
        | inr b ↦ rw b (calls_total es)
      ]

-- After any traps and system calls of a new process, in any order, and if the handlers leave the
-- counters alone: the total that countTraps returns is the number of the traps other than those
-- that no index but the last is for, and the total of system calls that it prints is the number of
-- those with a number from 1 to 22; both are reduced to words of 32 bits.
pub sys_count_traps-after_events :
    (run : ℕ → Task → Task × ℕ) (es : List Event)
    → LeavesCounts run
    → ((sys_count_traps (after_events run es fresh)).2 ≡ traps_named es % 2 ^ 32)
      × ((count_syscalls (after_events run es fresh)).1 ≡ calls_known es % 2 ^ 32)
unfolding sys_count_traps count_syscalls
sys_count_traps-after_events run es h = (traps_total run h es, calls_total run h es)
