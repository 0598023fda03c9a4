-- ===== src/Log/EndOp.antt =====
-- `end_op`, and the log over any interleaving of file system calls.
use cs.Base.{
  ℕ, ◌-◌, ◌≤◌, ◌<◌, ◌≡◌, inl, inr, refl, ap, sym, subst, ◌∙◌, Bool, true, false, List, [], ◌∷◌,
  ◌++◌, arith, length, length-append, Bool-cases, ltb, ok, ◌>>=◌, ℕ_discrete, if◌then◌else◌,
  Outcome, All, ◌==◌,
}
use cs.Log.{
  Log, LogHeader, maxopblocks, end_op_enter, end_op_leave, end_op, commit, write_head, write_log,
  write_block, install_trans,
}
use cs.Log.Loops.{IsHome, install-SameLog, write_log-SameLog}
use cs.Log.Recover.{initlog_empty}
use cs.Log.Stages.{IsReady, IsAtomic}
use cs.Log.Crash.{DidCommit, commit_atomic}
use cs.Log.Absorb.{logged}
use cs.Log.Session.{
  Session, Step, Reach, begin, write, finish, here, next, forget, IsSound, sum-append, sum_bound,
  All-middle, sum_split, length_split, IsReady-counters, begin-IsSound, write-IsSound, log_write_ok,
}

commit_same :
    (l : Log) → ((commit l).lh.block ≡ l.lh.block) × ((commit l).outstanding ≡ l.outstanding)
unfolding commit write_head write_block write_log install_trans
commit_same l = elim (Bool-cases (ltb 0 l.lh.n)) [
  | inl e ↦
      let w = write_log-SameLog l.lh.n 0 l in
      let i = install-SameLog (write_head (write_log l)).lh.n 0 (write_head (write_log l)) in
      rw e (ap (λ (h : LogHeader). h.block) (i.lh ∙ w.lh), i.outstanding ∙ w.outstanding)
  | inr e ↦ rw e (refl, refl)
]

-- A commit makes the log ready for the next transaction.
DidCommit-IsReady : (l m : Log) → IsReady l → DidCommit l m → IsReady m
DidCommit-IsReady l m r d = record {
  limit = omega (arith, d.emptied);
  logged = record {
    fits = omega (arith, d.emptied, d.size, r.logged.fits);
    homes = λ i h. absurd (omega (arith, d.emptied));
    distinct = λ i j lt h. absurd (omega (arith, d.emptied));
  };
  empty = ap (λ i. m.disk i 0) d.start ∙ d.header;
  clean = λ b h ne.
      let h' : IsHome l.start l.size b = rw (← d.start, ← d.size) h in
      d.in_cache b h' ∙ sym (d.on_disk b h');
}

-- The log that the last call leaves, before and after its commit.
closing : Log → Log
closing l = record (forget l) { outstanding = 0; committing = true }

enter_last :
    (l : Log)
    → l.committing ≡ false
    → l.outstanding ≡ 1
    → end_op_enter (forget l) ≡ ok (closing l, true)
unfolding end_op_enter closing
enter_last l c e = ground arith

enter_more :
    (l : Log)
    → l.committing ≡ false
    → 1 < l.outstanding
    → l.outstanding ≤ 3
    → end_op_enter (forget l) ≡ ok (record (forget l) { outstanding = l.outstanding - 1 }, false)
unfolding end_op_enter
enter_more l c lo hi = ground arith

module _ (s : Session) (h : IsSound s) (xs : List ℕ) (k : ℕ) (ys : List ℕ)
    (e : s.budgets ≡ xs ++ (k ∷ ys)) where
  finish_each : All (λ i. i ≤ maxopblocks) (xs ++ ys)
  finish_each = (All-middle maxopblocks xs k ys (subst (All (λ i. i ≤ maxopblocks)) e h.each)).0

  -- What an `end_op` that returns leaves.
  pub record DidEnd (l : Log) : Type 0 where
    pub returns : end_op (forget s.log) ≡ ok l
    pub sound : IsSound (record { log = l; budgets = xs ++ ys })
    pub atomic : All (IsAtomic s.log) (l.disk ∷ l.past)
    pub homes :
        (b : ℕ)
        → IsHome s.log.start s.log.size b
        → l.disk b ≡ (if s.log.outstanding == 1 then s.log.view b else s.log.disk b)

  end_more :
      1 < s.log.outstanding → DidEnd (record (forget s.log) { outstanding = s.log.outstanding - 1 })
  unfolding end_op
  end_more more = record {
    returns =
        ap (λ (m : Outcome (Log × Bool)). m >>= λ r. ok (end_op_leave r))
          (enter_more s.log h.idle more h.few);
    sound = record {
      ready = IsReady-counters s.log (s.log.outstanding - 1) s.log.committing [] h.ready;
      slots = h.slots;
      roomy = h.roomy;
      idle = h.idle;
      calls = omega (arith, h.calls, length_split s.budgets xs k ys e, length-append xs ys);
      few = omega (arith, h.few);
      each = finish_each;
      reserved = omega (arith, h.reserved, sum_split s.budgets xs k ys e, sum-append xs ys);
    };
    atomic = (
      inl (λ b hb.
          initlog_empty s.log.disk s.log.start s.log.size b (omega (arith, h.roomy)) h.ready.empty
            hb),
      tt,
    );
    homes = λ b hb. let no_commit : (s.log.outstanding == 1) ≡ false = ground arith in rw no_commit;
  }

  end_last : s.log.outstanding ≡ 1 → DidEnd (record (commit (closing s.log)) { committing = false })
  unfolding end_op closing
  end_last one =
      let c = closing s.log in
      let r = IsReady-counters s.log 0 true [] h.ready in
      let d = commit_atomic c r refl in
      let m = commit c in
      let (same_block, same_outstanding) = commit_same c in
      record {
        returns =
            ap (λ (m : Outcome (Log × Bool)). m >>= λ r. ok (end_op_leave r))
              (enter_last s.log h.idle one);
        sound = record {
          ready = IsReady-counters m m.outstanding false m.past (DidCommit-IsReady c m r d);
          slots = ap (length {A = ℕ}) same_block ∙ h.slots;
          roomy = rw d.size h.roomy;
          idle = refl;
          calls = omega (
            arith,
            same_outstanding,
            h.calls,
            length_split s.budgets xs k ys e,
            length-append xs ys,
          );
          few = omega (arith, same_outstanding);
          each = finish_each;
          reserved = omega (
            arith,
            d.emptied,
            h.calls,
            length_split s.budgets xs k ys e,
            length-append xs ys,
            sum_bound maxopblocks (xs ++ ys) finish_each,
          );
        };
        atomic = d.atomic;
        homes = λ b hb.
            let commits : (s.log.outstanding == 1) ≡ true = ground arith in
            rw commits (d.on_disk b hb);
      }

  -- `end_op` of a call in progress does not panic.
  pub end_op_lem : (l : Log) × DidEnd l
  end_op_lem = elim (ℕ_discrete s.log.outstanding 1) [
    | yes one ↦ (_, end_last one)
    | no ne ↦ (_, end_more (omega (arith, h.calls, length_split s.budgets xs k ys e)))
  ]

Step-IsSound : {s t : Session} → Step s t → IsSound s → IsSound t
Step-IsSound {s} (begin l e) h = begin-IsSound s l h e
Step-IsSound {s} (write xs k ys b v l e hb w) h =
    let same : logged s.log b v ≡ l = cc (w, log_write_ok s h xs k ys b v e) in
    subst (λ m. IsSound (record { log = m; budgets = xs ++ (k ∷ ys) })) same
      (write-IsSound s h xs k ys b v e hb)
Step-IsSound {s} (finish xs k ys l e w) h =
    let (m, d) = end_op_lem s h xs k ys e in
    let same : m ≡ l = cc (w, d.returns) in
    subst (λ m. IsSound (record { log = m; budgets = xs ++ ys })) same d.sound

-- Every interleaving of file system calls keeps the log sound.
pub Reach-IsSound : {s t : Session} → IsSound s → Reach s t → IsSound t
Reach-IsSound h here = h
Reach-IsSound h (next r st) = Step-IsSound st (Reach-IsSound h r)
