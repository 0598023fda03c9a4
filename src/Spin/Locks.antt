-- ===== src/Spin/Locks.antt =====
-- What each part of `acquire` and `release` does to the locks.
use cs.Base.{
  ℕ, ◌≡◌, refl, ap, sym, Bool, true, false, ◌&&◌, Option, none, some, arith, if◌then◌else◌, update,
  Outcome, ok, panic, ◌>>=◌, Ensures,
}
use cs.Spin.{
  Cpu, Machine, is_mine, holding, popcli, pushcli, set_lock, unless_held, if_held, acquire_xchg,
  release_clear, release_free,
}

pub enter-locks :
    (m : Machine) (c : ℕ) (o : Outcome (Cpu × Bool))
    → Ensures (λ u. u.locks ≡ m.locks) (o >>= unless_held m c)
enter-locks m c (ok (p, true)) = tt
enter-locks m c (ok (p, false)) = refl
enter-locks m c panic = tt

-- The first half of `release` goes on only if the lock is held on this processor.
pub clear-locks :
    (m : Machine) (c k : ℕ)
    → Ensures
        (λ u.
          ((m.locks k).locked ≡ true)
          × ((m.locks k).cpu ≡ some c)
          × (u.locks ≡ update m.locks k (record (m.locks k) { cpu = none })))
        (release_clear c k m)
unfolding release_clear holding
clear-locks m c k = go (popcli (pushcli (m.cpus c)))
  where
    mine : (o : Option ℕ) → is_mine c o ≡ true → o ≡ some c
    mine none e = cc
    mine (some d) e = let eq : c ≡ d = ground arith in ap some (sym eq)

    held :
        (q : Cpu) (b : Bool)
        → ((m.locks k).locked && is_mine c (m.locks k).cpu) ≡ b
        → Ensures
            (λ (u : Machine).
              ((m.locks k).locked ≡ true)
              × ((m.locks k).cpu ≡ some c)
              × (u.locks ≡ update m.locks k (record (m.locks k) { cpu = none })))
            (if_held m c k (q, b))
    held q true e = (ground arith, mine (m.locks k).cpu (ground arith), refl)
    held q false e = tt

    go :
        (o : Outcome Cpu)
        → Ensures
            (λ (u : Machine).
              ((m.locks k).locked ≡ true)
              × ((m.locks k).cpu ≡ some c)
              × (u.locks ≡ update m.locks k (record (m.locks k) { cpu = none })))
            ((o >>= λ q. ok (q, (m.locks k).locked && is_mine c (m.locks k).cpu)) >>= if_held m c k)
    go panic = tt
    go (ok q) = held q ((m.locks k).locked && is_mine c (m.locks k).cpu) refl

pub free-locks :
    (m : Machine) (c k : ℕ)
    → Ensures
        (λ u. u.locks ≡ update m.locks k (record (m.locks k) { locked = false }))
        (release_free c k m)
unfolding release_free
free-locks m c k = go (popcli (m.cpus c))
  where
    go :
        (o : Outcome Cpu)
        → Ensures
            (λ (u : Machine). u.locks ≡ update m.locks k (record (m.locks k) { locked = false }))
            (o >>= λ p. ok (
              set_lock
                (record m { cpus = update m.cpus c p })
                k
                (record (m.locks k) { locked = false })))
    go (ok p) = refl
    go panic = tt

pub xchg-locks :
    (m u : Machine) (k : ℕ) (b : Bool)
    → acquire_xchg k m ≡ (u, b)
    → (u.locks ≡ update m.locks k (record (m.locks k) { locked = true }))
      × (b ≡ (if (m.locks k).locked then false else true))
unfolding acquire_xchg
xchg-locks m u k b h =
    (ap (λ (x : Machine × Bool). x.0.locks) (sym h), ap (λ (x : Machine × Bool). x.1) (sym h))
