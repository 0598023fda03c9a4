-- ===== src/Log/Absorb.antt =====
-- `log_write`: absorption, and what it keeps.
use cs.Base.{
  update, update_ne, ℕ, zero, suc, ◌+◌, ◌-◌, ◌≤◌, ◌<◌, ◌≡◌, ◌≢◌, ◌⊎◌, inl, inr, refl, ap, sym, ◌∙◌,
  true, false, ◌||◌, List, arith, get_or, set, length, length-set, get_or-set_self, get_or-set_ne,
  ℕ_discrete, ◌==◌, Bool-cases, ltb, leb, ok, panic, if◌then◌else◌,
}
use cs.Log.{Block, Log, logsize, find_entry, log_write}
use cs.Log.Loops.{IsHome}
use cs.Log.Stages.{IsReady}

-- The index found is that of an entry equal to `b`, or past the entries, none of which is `b`.
find_entry_lem :
    (block : List ℕ) (b k i : ℕ)
    → let j = find_entry block b k i in
      ((i ≤ j) × (j < i + k) × (get_or block j 0 ≡ b))
      ⊎ ((j ≡ i + k) × ((q : ℕ) → i ≤ q → q < i + k → get_or block q 0 ≢ b))
unfolding find_entry
find_entry_lem block b zero i = inr (omega arith, λ q lo hi. absurd (omega arith))
find_entry_lem block b (suc k) i = elim (Bool-cases (get_or block i 0 == b)) [
  | inl e ↦ rw e (inl (omega arith, omega arith, ground arith))
  | inr e ↦ rw e (elim (find_entry_lem block b k (i + 1)) [
    | inl (lo, hi, at_b) ↦ inl (omega arith, omega arith, at_b)
    | inr (past_end, none_below) ↦ inr (
      omega arith,
      λ q lo hi. elim (ℕ_discrete i q) [
        | yes eq ↦ rw (← eq) (ground arith)
        | no ne ↦ none_below q (omega arith) (omega arith)
      ],
    )
  ])
]

-- The log that a `log_write` which does not panic leaves.
pub logged : Log → ℕ → Block → Log
logged l b v =
    let i = find_entry l.lh.block b l.lh.n 0 in
    record l {
      view = update l.view b v;
      lh = record { n = if i == l.lh.n then l.lh.n + 1 else l.lh.n; block = set l.lh.block i b };
    }

-- `log_write` panics on a full log and outside a transaction, and only then.
pub log_write_lem :
    (l : Log) (b : ℕ) (v : Block)
    → log_write l b v ≡ (
        if (leb logsize l.lh.n || leb (l.size - 1) l.lh.n) || ltb l.outstanding 1
        then panic
        else ok (logged l b v))
unfolding log_write logged
log_write_lem l b v = ground arith

-- One more entry at most.
pub logged_n : (l : Log) (b : ℕ) (v : Block) → (logged l b v).lh.n ≤ l.lh.n + 1
unfolding logged
logged_n l b v = ground arith

module _ (l : Log) (b : ℕ) (v : Block) (r : IsReady l) (slots : length l.lh.block ≡ logsize) where
  with_header : ℕ → List ℕ → Log
  with_header n block = record l { view = update l.view b v; lh = record { n = n; block = block } }

  -- An entry that is there already: only the cache changes.
  old-entry :
      (i : ℕ)
      → i < l.lh.n
      → get_or l.lh.block i 0 ≡ b
      → IsReady (with_header l.lh.n (set l.lh.block i b))
  unfolding with_header
  old-entry i lt at_b =
      let same : (j : ℕ) → get_or (set l.lh.block i b) j 0 ≡ get_or l.lh.block j 0 = λ j.
        elim (ℕ_discrete i j) [
          | yes e ↦ rw (← e) (get_or-set_self l.lh.block i b 0 (omega (arith, r.limit)) ∙ sym at_b)
          | no ne ↦ get_or-set_ne l.lh.block i j b 0 ne
        ] in
      record {
        limit = r.limit;
        logged = record {
          fits = r.logged.fits;
          homes = λ j h. rw (same j) (r.logged.homes j h);
          distinct = λ j k lt' h e. r.logged.distinct j k lt' h (sym (same j) ∙ e ∙ same k);
        };
        empty = r.empty;
        clean = λ q h ne.
            update_ne l.view b q v (λ e. ne i lt (same i ∙ at_b ∙ e))
            ∙ r.clean q h (λ j lt' e. ne j lt' (same j ∙ e));
      }

  new-entry :
      l.lh.n < logsize
      → l.lh.n + 1 < l.size
      → IsHome l.start l.size b
      → ((q : ℕ) → q < l.lh.n → get_or l.lh.block q 0 ≢ b)
      → IsReady (with_header (l.lh.n + 1) (set l.lh.block l.lh.n b))
  unfolding with_header
  new-entry lim fits h none_below =
      let n = l.lh.n in
      let block' = set l.lh.block n b in
      let at_n : get_or block' n 0 ≡ b = get_or-set_self l.lh.block n b 0 (omega arith) in
      let below : (j : ℕ) → j < n → get_or block' j 0 ≡ get_or l.lh.block j 0 =
        λ j lt. get_or-set_ne l.lh.block n j b 0 (omega arith) in
      record {
        limit = omega arith;
        logged = record {
          fits = omega arith;
          homes = λ j lt. elim (ℕ_discrete j n) [
            | yes e ↦ rw (e, at_n) h
            | no ne ↦ rw (below j (omega arith)) (r.logged.homes j (omega arith))
          ];
          distinct = λ j k lt' lt e. elim (ℕ_discrete k n) [
            | yes eq ↦
                none_below j (omega arith)
                  (sym (below j (omega arith)) ∙ e ∙ ap (λ q. get_or block' q 0) eq ∙ at_n)
            | no ne ↦
                r.logged.distinct j k lt' (omega arith)
                  (sym (below j (omega arith)) ∙ e ∙ below k (omega arith))
          ];
        };
        empty = r.empty;
        clean = λ q hq ne.
            update_ne l.view b q v (λ e. ne n (omega arith) (at_n ∙ e))
            ∙ r.clean q hq (λ j lt e. ne j (omega arith) (below j lt ∙ e));
      }

  -- The entries stay different homes that fit, and the cache differs from the disk at them only.
  pub logged-IsReady :
      l.lh.n < logsize → l.lh.n + 1 < l.size → IsHome l.start l.size b → IsReady (logged l b v)
  unfolding logged with_header
  logged-IsReady lim fits h =
      let i = find_entry l.lh.block b l.lh.n 0 in
      elim (find_entry_lem l.lh.block b l.lh.n 0) [
        | inl (lo, hi, at_b) ↦
            let ne : (i == l.lh.n) ≡ false = ground arith in rw ne (old-entry i (omega arith) at_b)
        | inr (past_end, none_below) ↦
            let e : i ≡ l.lh.n = omega arith in
            let eq : (l.lh.n == l.lh.n) ≡ true = ground arith in
            rw (e, eq) (new-entry lim fits h (λ q lt. none_below q (omega arith) (omega arith)))
      ]

  pub logged_slots : length (logged l b v).lh.block ≡ logsize
  unfolding logged
  logged_slots = length-set l.lh.block (find_entry l.lh.block b l.lh.n 0) b ∙ slots

pub logged_same :
    (l : Log) (b : ℕ) (v : Block)
    → ((logged l b v).size ≡ l.size)
      × ((logged l b v).committing ≡ l.committing)
      × ((logged l b v).outstanding ≡ l.outstanding)
unfolding logged
logged_same l b v = (refl, refl, refl)
