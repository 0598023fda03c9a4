-- ===== src/Cache/Tests.antt =====
-- Process 7 asks for block 3 of a disk whose block n holds n.
use cs.Base.{ℕ, ◌≡◌, refl, true, false, [], ◌∷◌, arith, ok}
use cs.Cache.{link_from, Data, Bcache, binit, set_buf, bread_rest}
use cs.Cache.Unique.{IsCoherent}
use cs.Cache.Steps.{Wait, World, Step, Reach}
use cs.Cache.Coherent.{Reach-IsCoherent}
use cs.Cache.Bread.{IsBread, lock_buf, Reach-IsBread}

abbrev disk : ℕ → Data
disk n = λ _. n

abbrev fresh : World
fresh = record { cache = binit disk 10; waiting = []; view = disk }

abbrev three : Wait
three = record { who = 7; place = 0; dev = 1; blockno = 3; leaving = false }

-- The least recently used buffer is at place 0.
abbrev asked : World
asked = record fresh {
  cache = set_buf fresh.cache 0 (record (fresh.cache.buf 0) {
    dev = 1;
    blockno = 3;
    valid = false;
    dirty = false;
    refcnt = 1;
  });
  waiting = three ∷ [];
}

asked-Reach : Reach asked
unfolding link_from
asked-Reach =
    Reach.then_step (Reach.begins disk 10)
      (Step.asks 7 1 3 0 asked.cache (omega arith) (omega arith) refl)

Reach-IsCoherent_example : IsCoherent asked
Reach-IsCoherent_example = Reach-IsCoherent asked-Reach

Reach-IsBread_example :
    (c : Bcache) × (bread_rest 7 0 (lock_buf asked.cache 0 (record { locked = true; pid = 7 }))
      ≡ ok c)
    × IsBread asked three (c.buf 0)
Reach-IsBread_example =
    Reach-IsBread [] [] three (record { locked = true; pid = 7 }) asked-Reach refl refl refl refl
      (omega arith)
