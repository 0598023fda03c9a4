-- ===== src/Spin/Nesting.antt =====
-- Calls of `pushcli` and `popcli` that match restore interrupts.
use cs.Base.{
  ◌+◌, ◌-◌, ◌≡◌, ◌≢◌, ◌⊎◌, inl, inr, refl, ap, sym, ◌∙◌, true, false, ◌&&◌, List, [], ◌∷◌, ◌++◌,
  arith, ◌==◌, if◌then◌else◌, Outcome, ok, panic, ◌>>=◌,
}
use cs.Spin.{Cpu, pushcli, popcli}

pub data Call : Type 0 where
  pushes pops : Call

abbrev pub run_call : Call → Cpu → Outcome Cpu
run_call pushes p = ok (pushcli p)
run_call pops p = popcli p

abbrev pub run : List Call → Cpu → Outcome Cpu
run [] p = ok p
run (x ∷ xs) p = run_call x p >>= run xs

-- Calls in which each `popcli` undoes a `pushcli` before it.
pub data Balanced : List Call → Type 0 where
  no_calls : Balanced []
  nested : {xs ys : List Call} → Balanced xs → Balanced ys → Balanced (pushes ∷ xs ++ (pops ∷ ys))

-- Interrupts are off while the depth is not 0.
abbrev pub IsQuiet : Cpu → Type 0
IsQuiet p = (p.ncli ≡ 0) ⊎ (p.flag ≡ false)

pub record Restored (p q : Cpu) : Type 0 where
  pub depth : q.ncli ≡ p.ncli
  pub flag : q.flag ≡ p.flag
  pub intena : p.ncli ≢ 0 → q.intena ≡ p.intena

bind-append :
    (m : Outcome Cpu) (xs ys : List Call)
    → ((q : Cpu) → run (xs ++ ys) q ≡ (run xs q >>= run ys))
    → (m >>= run (xs ++ ys)) ≡ ((m >>= run xs) >>= run ys)
bind-append (ok q) xs ys h = h q
bind-append panic xs ys h = refl

run-append : (xs ys : List Call) (p : Cpu) → run (xs ++ ys) p ≡ (run xs p >>= run ys)
run-append [] ys p = refl
run-append (pushes ∷ xs) ys p = run-append xs ys (pushcli p)
run-append (pops ∷ xs) ys p = bind-append (popcli p) xs ys (λ q. run-append xs ys q)

-- `popcli` after calls that restored what `pushcli` left.
popcli-Restored :
    (p q : Cpu) → IsQuiet p → Restored (pushcli p) q → (r : Cpu) × (popcli q ≡ ok r) × Restored p r
unfolding pushcli popcli
popcli-Restored p q quiet h =
    let d : q.ncli ≡ p.ncli + 1 = h.depth in
    let off : q.flag ≡ false = h.flag in
    let kept : q.intena ≡ (if p.ncli == 0 then p.flag else p.intena) =
      h.intena (λ z. omega arith) in
    let more : (q.ncli == 0) ≡ false = ground arith in
    (
      record q { ncli = q.ncli - 1; flag = if (q.ncli - 1 == 0) && q.intena then true else q.flag },
      rw (off, more) refl,
      record { depth = omega arith; flag = ground arith; intena = λ nz. ground arith },
    )

pushcli-off : (p : Cpu) → (pushcli p).flag ≡ false
unfolding pushcli
pushcli-off p = refl

still-IsQuiet : (p q : Cpu) → IsQuiet p → Restored p q → IsQuiet q
still-IsQuiet p q (inl z) h = inl (h.depth ∙ z)
still-IsQuiet p q (inr off) h = inr (h.flag ∙ off)

-- Calls of `pushcli` and `popcli` that match, on a processor whose interrupts are off if it is inside
-- of a `pushcli`, do not panic, and leave the depth and the interrupt flag as they were.
pub run-Restored :
    {xs : List Call} (p : Cpu)
    → Balanced xs
    → IsQuiet p
    → (q : Cpu) × (run xs p ≡ ok q) × Restored p q
run-Restored p no_calls quiet = (p, refl, record { depth = refl; flag = refl; intena = λ _. refl })
run-Restored p (nested {xs} {ys} bx by) quiet =
    let inner = run-Restored (pushcli p) bx (inr (pushcli-off p)) in
    let back = popcli-Restored p inner.0 quiet inner.2 in
    let outer = run-Restored back.0 by (still-IsQuiet p back.0 quiet back.2) in
    let h1 = back.2 in
    let h2 = outer.2 in
    (
      outer.0,
      run-append (pushes ∷ xs) (pops ∷ ys) p
          ∙ ap (λ m. m >>= run (pops ∷ ys)) inner.1
          ∙ ap (λ m. m >>= run ys) back.1
          ∙ outer.1,
      record {
        depth = h2.depth ∙ h1.depth;
        flag = h2.flag ∙ h1.flag;
        intena = λ nz. h2.intena (λ z. nz (sym h1.depth ∙ z)) ∙ h1.intena nz;
      },
    )
