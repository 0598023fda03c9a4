-- ===== src/Log/Session.antt =====
-- File system calls in progress: `begin_op`, `log_write` and `end_op` interleaved. Each call may
-- write `maxopblocks` times between its `begin_op` and its `end_op`.
use cs.Base.{
  ℕ, suc, ◌+◌, ◌*◌, ◌≤◌, ◌<◌, ◌≡◌, ap, subst, ◌∙◌, Bool, false, List, [], ◌∷◌, ◌++◌, arith, length,
  length-append, ok, some, All,
}
use cs.Log.{Block, Disk, Log, logsize, maxopblocks, log_write, begin_op, end_op}
use cs.Log.Loops.{IsHome}
use cs.Log.Stages.{IsReady}
use cs.Log.Absorb.{logged, log_write_lem, logged_n, logged-IsReady, logged_slots, logged_same}

abbrev pub sum : List ℕ → ℕ
sum [] = 0
sum (x ∷ xs) = x + sum xs

-- The log, and how many more blocks each call in progress may write.
pub record Session : Type 0 where
  pub log : Log
  pub budgets : List ℕ

-- The states of the disk before this operation are forgotten.
abbrev pub forget : Log → Log
forget l = record l { past = [] }

pub data Step (s : Session) : Session → Type 0 where
  begin :
      (l : Log)
      → begin_op s.log ≡ some l
      → Step s (record { log = l; budgets = maxopblocks ∷ s.budgets })
  write :
      (xs : List ℕ) (k : ℕ) (ys : List ℕ) (b : ℕ) (v : Block) (l : Log)
      → s.budgets ≡ xs ++ (suc k ∷ ys)
      → IsHome s.log.start s.log.size b
      → log_write s.log b v ≡ ok l
      → Step s (record { log = l; budgets = xs ++ (k ∷ ys) })
  finish :
      (xs : List ℕ) (k : ℕ) (ys : List ℕ) (l : Log)
      → s.budgets ≡ xs ++ (k ∷ ys)
      → end_op (forget s.log) ≡ ok l
      → Step s (record { log = l; budgets = xs ++ ys })

pub data Reach (s : Session) : Session → Type 0 where
  here : Reach s s
  next : {t u : Session} → Reach s t → Step t u → Reach s u

pub record IsSound (s : Session) : Type 0 where
  pub ready : IsReady s.log
  pub slots : length s.log.lh.block ≡ logsize
  pub roomy : logsize < s.log.size
  pub idle : s.log.committing ≡ false
  pub calls : s.log.outstanding ≡ length s.budgets
  pub few : s.log.outstanding ≤ 3
  pub each : All (λ k. k ≤ maxopblocks) s.budgets
  pub reserved : s.log.lh.n + sum s.budgets ≤ logsize

pub sum-append : (xs ys : List ℕ) → sum (xs ++ ys) ≡ sum xs + sum ys
sum-append [] ys = omega arith
sum-append (x ∷ xs) ys = omega (arith, sum-append xs ys)

pub sum_bound : (m : ℕ) (xs : List ℕ) → All (λ k. k ≤ m) xs → sum xs ≤ length xs * m
sum_bound m [] h = omega arith
sum_bound m (x ∷ xs) h = omega (arith, h.0, sum_bound m xs h.1)

pub All-middle :
    (m : ℕ) (xs : List ℕ) (k : ℕ) (ys : List ℕ)
    → All (λ i. i ≤ m) (xs ++ (k ∷ ys))
    → All (λ i. i ≤ m) (xs ++ ys) × ((j : ℕ) → j ≤ m → All (λ i. i ≤ m) (xs ++ (j ∷ ys)))
All-middle m [] k ys h = (h.1, λ j le. (le, h.1))
All-middle m (x ∷ xs) k ys h =
    let ih = All-middle m xs k ys h.1 in ((h.0, ih.0), λ j le. (h.0, ih.1 j le))

pub All-head :
    (m : ℕ) (xs : List ℕ) (k : ℕ) (ys : List ℕ) → All (λ i. i ≤ m) (xs ++ (k ∷ ys)) → k ≤ m
All-head m [] k ys h = h.0
All-head m (x ∷ xs) k ys h = All-head m xs k ys h.1

module _ (bs xs : List ℕ) (k : ℕ) (ys : List ℕ) (e : bs ≡ xs ++ (k ∷ ys)) where
  pub sum_split : sum bs ≡ sum xs + k + sum ys
  sum_split = ap sum e ∙ sum-append xs (k ∷ ys) ∙ omega arith

  pub length_split : length bs ≡ length xs + length ys + 1
  length_split = ap (length {A = ℕ}) e ∙ length-append xs (k ∷ ys) ∙ omega arith

-- The counters and the ghost history play no part in a log's being ready.
pub IsReady-counters :
    (l : Log) (o : ℕ) (c : Bool) (x : List Disk)
    → IsReady l
    → IsReady (record l { outstanding = o; committing = c; past = x })
IsReady-counters l o c x r = record {
  limit = r.limit;
  logged = r.logged;
  empty = r.empty;
  clean = r.clean;
}

begin_op_lem :
    (l m : Log)
    → begin_op l ≡ some m
    → (l.lh.n + (l.outstanding + 1) * maxopblocks ≤ logsize)
      × (record l { outstanding = l.outstanding + 1 } ≡ m)
unfolding begin_op
begin_op_lem l m e = ground arith

pub begin-IsSound :
    (s : Session) (l : Log)
    → IsSound s
    → begin_op s.log ≡ some l
    → IsSound (record { log = l; budgets = maxopblocks ∷ s.budgets })
begin-IsSound s l h e =
    let (le, eq) = begin_op_lem s.log l e in
    subst (λ m. IsSound (record { log = m; budgets = maxopblocks ∷ s.budgets })) eq
      (record {
        ready = IsReady-counters s.log (s.log.outstanding + 1) s.log.committing s.log.past h.ready;
        slots = h.slots;
        roomy = h.roomy;
        idle = h.idle;
        calls = omega (arith, h.calls);
        few = omega arith;
        each = (omega arith, h.each);
        reserved = omega (arith, sum_bound maxopblocks s.budgets h.each, h.calls);
      })

module _ (s : Session) (h : IsSound s) (xs : List ℕ) (k : ℕ) (ys : List ℕ) where
  -- A call of `log_write` by a file system call that has written fewer than `maxopblocks` blocks
  -- does not panic, on a log with a block for the header beside its `logsize` blocks.
  pub log_write_ok :
      (b : ℕ) (v : Block)
      → s.budgets ≡ xs ++ (suc k ∷ ys)
      → log_write s.log b v ≡ ok (logged s.log b v)
  log_write_ok b v e =
      log_write_lem s.log b v
      ∙ ground (
        arith,
        sum_split s.budgets xs (suc k) ys e,
        length_split s.budgets xs (suc k) ys e,
        h.reserved,
        h.roomy,
        h.calls,
      )

  pub write-IsSound :
      (b : ℕ) (v : Block)
      → s.budgets ≡ xs ++ (suc k ∷ ys)
      → IsHome s.log.start s.log.size b
      → IsSound (record { log = logged s.log b v; budgets = xs ++ (k ∷ ys) })
  write-IsSound b v e home =
      let se = sum_split s.budgets xs (suc k) ys e in
      let le = length_split s.budgets xs (suc k) ys e in
      let each = subst (All (λ i. i ≤ maxopblocks)) e h.each in
      let top = All-head maxopblocks xs (suc k) ys each in
      let (same_size, same_committing, same_outstanding) = logged_same s.log b v in
      record {
        ready =
            logged-IsReady s.log b v h.ready h.slots (omega (arith, h.reserved))
              (omega (arith, h.reserved, h.roomy)) home;
        slots = logged_slots s.log b v h.ready h.slots;
        roomy = rw same_size h.roomy;
        idle = same_committing ∙ h.idle;
        calls = omega (arith, same_outstanding, h.calls, length-append xs (k ∷ ys));
        few = omega (arith, same_outstanding, h.few);
        each = (All-middle maxopblocks xs (suc k) ys each).1 k (omega arith);
        reserved = omega (arith, logged_n s.log b v, h.reserved, sum-append xs (k ∷ ys));
      }
