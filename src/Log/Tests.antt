-- ===== src/Log/Tests.antt =====
-- Logs with a transaction to commit.
use cs.Base.{
  update, update_ne, ℕ, zero, suc, ◌+◌, ◌<◌, ◌≡◌, inr, refl, false, [], ◌∷◌, arith, get_or,
  replicate,
}
use cs.Log.{Block, Disk, Log, commit, initlog}
use cs.Log.Loops.{IsHome}
use cs.Log.Recover.{IsCommitted, initlog_committed}
use cs.Log.Stages.{IsReady}
use cs.Log.Crash.{DidCommit, commit_atomic}
use cs.Log.Absorb.{logged}
use cs.Log.Session.{Session}

abbrev zeros : Disk
zeros b w = 0

abbrev fives : Block
fives w = 5

-- block 40 is new, in the cache only
abbrev pending : Log
pending = record {
  start = 2;
  size = 31;
  outstanding = 1;
  committing = false;
  lh = record { n = 1; block = 40 ∷ replicate 29 0 };
  view = update zeros 40 fives;
  disk = zeros;
  past = [];
}

one-IsHome : (i : ℕ) → i < 1 → IsHome 2 31 (get_or pending.lh.block i 0)
one-IsHome zero h = inr (omega arith)
one-IsHome (suc i) h = absurd (omega arith)

pending-IsReady : IsReady pending
pending-IsReady = record {
  limit = omega arith;
  logged = record {
    fits = omega arith;
    homes = one-IsHome;
    distinct = λ i j lt h e. absurd (omega arith);
  };
  empty = refl;
  clean = λ b h ne. update_ne zeros 40 b fives (ne 0 (omega arith));
}

commit_atomic_example : DidCommit pending (commit pending)
commit_atomic_example = commit_atomic pending pending-IsReady refl

abbrev one_call : Session
one_call = record { log = pending; budgets = 9 ∷ [] }

-- the disk after the header is written
abbrev crashed : Disk
crashed = update (update zeros 2 (update (update (zeros 2) 0 1) 1 40)) 3 fives

crashed-IsCommitted : IsCommitted 2 31 pending.lh.block 1 pending.view crashed
crashed-IsCommitted = record {
  header = refl;
  entries = one_entry;
  logged = one_block;
  rest = λ b h ne. ground (arith, h, ne 0 (omega arith));
}
  where
    one_entry : (j : ℕ) → j < 1 → crashed 2 (j + 1) ≡ get_or pending.lh.block j 0
    one_entry zero h = refl
    one_entry (suc j) h = absurd (omega arith)

    one_block : (j : ℕ) → j < 1 → crashed (2 + j + 1) ≡ pending.view (get_or pending.lh.block j 0)
    one_block zero h = refl
    one_block (suc j) h = absurd (omega arith)

initlog_committed_example : (initlog crashed 2 31).disk 40 ≡ fives
initlog_committed_example =
    initlog_committed pending.lh.block 1 pending.view crashed 2 31 40 (omega arith)
      pending-IsReady.logged crashed-IsCommitted (inr (omega arith))
