-- ===== src/Cache/Coherent.antt =====
-- Every step keeps the invariant, and `bread` returns what was last written.
use cs.Base.{
  ℕ, ◌+◌, ◌-◌, ◌%◌, ◌^◌, ◌<◌, ◌≡◌, ◌≢◌, inl, inr, refl, ap, sym, true, false, List, [], ◌∷◌, ◌++◌,
  none, some, arith, ◌==◌, if◌then◌else◌, Bool-cases, Option-cases, All, length, subst, Outcome, ok,
  panic, Ensures_ok,
}
use cs.Cache.{
  Sleeplock, Bcache, set_buf, find_cached, find_free, acquiresleep, holdingsleep, releasesleep,
  unlink, claim, recycle, bget, brelse_unlock, brelse_drop,
}
use cs.Cache.Order.{occurs, find_free-some, find_cached-some, occurs-unlink}
use cs.Cache.Steps.{Wait, World, Step, Reach}
use cs.Cache.Unique.{bit, waiters, waiters-le, Fine, IsAsked, IsCoherent}
use cs.Cache.Change.{change_lem, kept-Clean}
use cs.Cache.Requests.{hit-IsCoherent, recycle-IsCoherent}
use cs.Cache.Transfer.{reads-IsCoherent, writes-IsCoherent, logs-IsCoherent}

waiters-middle :
    (i : ℕ) (before after : List Wait) (a : Wait)
    → waiters i (before ++ (a ∷ after)) ≡ waiters i (before ++ after) + bit (i == a.place)
unfolding waiters
waiters-middle i [] after a = omega arith
waiters-middle i (c ∷ before) after a = omega (arith, waiters-middle i before after a)

pub All-middle :
    (P : Wait → Type 0) (before after : List Wait) (a : Wait)
    → All P (before ++ (a ∷ after))
    → P a × All P (before ++ after)
All-middle P [] after a h = h
All-middle P (c ∷ before) after a h =
    let rest = All-middle P before after a h.1 in (rest.0, (h.0, rest.1))

length-middle :
    (before after : List Wait) (a : Wait)
    → length (before ++ (a ∷ after)) ≡ length (before ++ after) + 1
length-middle [] after a = omega arith
length-middle (c ∷ before) after a = omega (arith, length-middle before after a)

acquired_lock :
    (l : Sleeplock) (who : ℕ) (lk : Sleeplock)
    → acquiresleep who l ≡ some lk
    → (l.locked ≡ false) × (lk.locked ≡ true)
acquired_lock l who lk got = elim (Bool-cases l.locked) [
  | inl e ↦ let no : none ≡ some lk = rw e at got in cc
  | inr e ↦
      let same : some (record { locked = true; pid = who }) ≡ some lk = rw e at got in
      let eq : record { locked = true; pid = who } ≡ lk = cc in
      (e, ap (λ (x : Sleeplock). x.locked) (sym eq))
]

locks-IsCoherent :
    (w : World) (before after : List Wait) (a : Wait) (lk : Sleeplock)
    → IsCoherent w
    → w.waiting ≡ before ++ (a ∷ after)
    → acquiresleep a.who (w.cache.buf a.place).lock ≡ some lk
    → IsCoherent (record w {
      cache = set_buf w.cache a.place (record (w.cache.buf a.place) { lock = lk });
      waiting = before ++ after;
    })
locks-IsCoherent w before after a lk s at got =
    let buf = w.cache.buf in
    let i = a.place in
    let was = s.fine i in
    let counts : (j : ℕ) → waiters j w.waiting ≡ waiters j (before ++ after) + bit (j == i) =
      λ j. rw at (waiters-middle j before after a) in
    let shorter : length w.waiting ≡ length (before ++ after) + 1 =
      rw at (length-middle before after a) in
    let asked : All (IsAsked buf) (before ++ (a ∷ after)) = rw at at s.asked in
    let few = s.few in
    let lock_free : ((buf i).lock.locked ≡ false) × (lk.locked ≡ true) =
      acquired_lock (buf i).lock a.who lk got in
    let counted = was.counted in
    let mine = counts i in
    change_lem w i (record (buf i) { lock = lk }) w.cache.order w.cache.disk w.view
      (before ++ after) s (refl, refl) (λ k. refl) (All-middle (IsAsked buf) before after a asked).1
      (omega arith)
      (λ j ne.
        let theirs = counts j in
        let same : waiters j w.waiting ≡ waiters j (before ++ after) = ground arith in
        subst (λ x. Fine w.view x (buf j)) same (s.fine j))
      (record {
        counted = ground arith;
        current = was.current;
        backed = was.backed;
        used = was.used;
      })
      (kept-Clean buf i (record (buf i) { lock = lk }) w.cache.disk w.view s.clean (λ e. (e, refl)))

asks-IsCoherent :
    (w : World) (who d n i : ℕ) (c : Bcache)
    → IsCoherent w
    → d ≢ 0
    → length w.waiting + 2 < 2 ^ 32
    → bget d n w.cache ≡ ok (c, i)
    → IsCoherent (record w {
      cache = c;
      waiting = record { who = who; place = i; dev = d; blockno = n; leaving = false } ∷ w.waiting;
    })
asks-IsCoherent w who d n i c s nz few h =
    let found = find_cached d n w.cache.buf w.cache.order in
    elim (Option-cases found) [
      | inr (j, e) ↦
          let hit = (find_cached-some d n w.cache.buf w.cache.order j e).0 in
          let got = simp e at h in
          Ensures_ok
            (λ (r : Bcache × ℕ). IsCoherent (record w {
              cache = r.0;
              waiting =
                  record { who = who; place = r.1; dev = d; blockno = n; leaving = false }
                  ∷ w.waiting;
            }))
            (claim d n w.cache (some j)) (c, i) (hit-IsCoherent w who d n j s nz few hit) got
      | inl e ↦ elim (Option-cases (find_free w.cache.buf w.cache.order)) [
        | inr (j, f) ↦
            let spare = find_free-some w.cache.buf w.cache.order j f in
            let got = simp (e, f) at h in
            Ensures_ok
              (λ (r : Bcache × ℕ). IsCoherent (record w {
                cache = r.0;
                waiting =
                    record { who = who; place = r.1; dev = d; blockno = n; leaving = false }
                    ∷ w.waiting;
              }))
              (recycle d n w.cache (some j)) (c, i)
              (recycle-IsCoherent w who d n j s nz few e spare.0 spare.1) got
        | inl f ↦
            let bad : ◌≡◌ {A = Outcome (Bcache × ℕ)} panic (ok (c, i)) = simp (e, f) at h in cc
      ]
    ]

-- Who gave up the lock of buffer `i` and is about to drop it.
abbrev leaver : World → ℕ → ℕ → Wait
leaver w who i = record {
  who = who;
  place = i;
  dev = (w.cache.buf i).dev;
  blockno = (w.cache.buf i).blockno;
  leaving = true;
}

abbrev unlocked : World → ℕ → Bcache
unlocked w i = let b = w.cache.buf i in set_buf w.cache i (record b { lock = releasesleep b.lock })

unlocked-IsCoherent :
    (w : World) (who i : ℕ)
    → IsCoherent w
    → length w.waiting + 2 < 2 ^ 32
    → (w.cache.buf i).lock.locked ≡ true
    → IsCoherent (record w { cache = unlocked w i; waiting = leaver w who i ∷ w.waiting })
unfolding waiters
unlocked-IsCoherent w who i s few locked =
    let buf = w.cache.buf in
    let b = record (buf i) { lock = releasesleep (buf i).lock } in
    let f = s.fine i in
    let counted = f.counted in
    let ws = leaver w who i ∷ w.waiting in
    change_lem w i b w.cache.order w.cache.disk w.view ws s (refl, refl) (λ k. refl)
      ((refl, refl, f.used (ground arith)), s.asked) (omega arith)
      (λ j ne.
        let here : waiters j ws ≡ waiters j w.waiting = ground arith in
        subst (λ x. Fine w.view x (buf j)) (sym here) (s.fine j))
      (record { counted = ground arith; current = f.current; backed = f.backed; used = f.used })
      (kept-Clean buf i b w.cache.disk w.view s.clean (λ e. (e, refl)))

releases-IsCoherent :
    (w : World) (who i : ℕ) (c : Bcache)
    → IsCoherent w
    → length w.waiting + 2 < 2 ^ 32
    → brelse_unlock who i w.cache ≡ ok c
    → IsCoherent (record w { cache = c; waiting = leaver w who i ∷ w.waiting })
unfolding brelse_unlock
releases-IsCoherent w who i c s few h =
    let b = w.cache.buf i in
    elim (Bool-cases (holdingsleep who b.lock)) [
      | inr free ↦ let bad : panic ≡ ok c = simp free at h in cc
      | inl holds ↦
          let got : ok (unlocked w i) ≡ ok c = simp holds at h in
          Ensures_ok
            (λ x. IsCoherent (record w { cache = x; waiting = leaver w who i ∷ w.waiting }))
            (ok (unlocked w i)) c (unlocked-IsCoherent w who i s few (ground arith)) got
    ]

drops-IsCoherent :
    (w : World) (before after : List Wait) (a : Wait)
    → IsCoherent w
    → w.waiting ≡ before ++ (a ∷ after)
    → IsCoherent (record w { cache = brelse_drop a.place w.cache; waiting = before ++ after })
unfolding brelse_drop
drops-IsCoherent w before after a s at =
    let buf = w.cache.buf in
    let i = a.place in
    let rc = ((buf i).refcnt + 2 ^ 32 - 1) % 2 ^ 32 in
    let b = record (buf i) { refcnt = rc } in
    let f = s.fine i in
    let counts : (j : ℕ) → waiters j w.waiting ≡ waiters j (before ++ after) + bit (j == i) =
      λ j. rw at (waiters-middle j before after a) in
    let shorter : length w.waiting ≡ length (before ++ after) + 1 =
      rw at (length-middle before after a) in
    let asked : All (IsAsked buf) (before ++ (a ∷ after)) = rw at at s.asked in
    let few = s.few in
    let counted = f.counted in
    let mine = counts i in
    let le = waiters-le i w.waiting in
    let here : occurs i w.cache.order ≢ 0 = λ z. f.used (ground arith) (s.outside i z) in
    change_lem w i b (if rc == 0 then i ∷ unlink i w.cache.order else w.cache.order) w.cache.disk
      w.view (before ++ after) s (refl, refl)
      (λ k. elim (Bool-cases (rc == 0)) [
        | inl e ↦ rw e (occurs-unlink i k w.cache.order here)
        | inr e ↦ rw e refl
      ])
      (All-middle (IsAsked buf) before after a asked).1 (omega arith)
      (λ j ne.
        let theirs = counts j in
        let same : waiters j w.waiting ≡ waiters j (before ++ after) = ground arith in
        subst (λ x. Fine w.view x (buf j)) same (s.fine j))
      (record {
        counted = ground arith;
        current = f.current;
        backed = f.backed;
        used = λ nz. f.used (ground arith);
      })
      (kept-Clean buf i b w.cache.disk w.view s.clean (λ e. (e, refl)))

Step-IsCoherent : {w u : World} → Step w u → IsCoherent w → IsCoherent u
Step-IsCoherent (Step.asks {w} who d n i c nz few e) s = asks-IsCoherent w who d n i c s nz few e
Step-IsCoherent (Step.locks {w} before after a lk at stays e) s =
    locks-IsCoherent w before after a lk s at e
Step-IsCoherent (Step.reads {w} who i c e) s = reads-IsCoherent w who i c s e
Step-IsCoherent (Step.writes {w} who i v c valid e) s = writes-IsCoherent w who i v c s valid e
Step-IsCoherent (Step.logs {w} who i v valid e) s = logs-IsCoherent w i v s valid
Step-IsCoherent (Step.releases {w} who i c few e) s = releases-IsCoherent w who i c s few e
Step-IsCoherent (Step.drops {w} before after a at leaves) s = drops-IsCoherent w before after a s at

-- Whatever processes do with the buffer cache, in any order: each buffer stays in the list once; no
-- two buffers are for the same block of a device that is not 0; the reference count of a buffer is
-- the number of processes that wait for its lock or are between the two parts of `brelse`, one more
-- if it is locked; a valid buffer has what was last written to its block; the disk has it where no
-- buffer for the block is dirty; and a process waits for a buffer that is for the block it asked
-- for.
pub Reach-IsCoherent : {w : World} → Reach w → IsCoherent w
unfolding waiters
Reach-IsCoherent (Reach.begins disk disksize) = record {
  ordered = λ i. refl;
  outside = λ i _. refl;
  unique = λ i j _ _. refl;
  fine = λ i. record {
    counted = refl;
    current = λ v. cc;
    backed = λ v. cc;
    used = λ nz. absurd (nz refl);
  };
  clean = λ n _. refl;
  asked = tt;
  few = omega arith;
}
Reach-IsCoherent (Reach.then_step r st) = Step-IsCoherent st (Reach-IsCoherent r)
