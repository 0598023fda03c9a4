-- ===== src/Cache/Steps.antt =====
-- What processes do with the buffer cache, in any order.
use cs.Base.{
  ℕ, ◌+◌, ◌^◌, ◌<◌, ◌≡◌, ◌≢◌, Bool, true, false, List, [], ◌∷◌, ◌++◌, some, length, update, ok,
}
use cs.Cache.{
  Data, Sleeplock, Bcache, set_buf, binit, acquiresleep, holdingsleep, bget, bread_rest, bwrite,
  brelse_unlock, brelse_drop,
}

-- A process between the two parts of `bget`, and what it asked for; or, where `leaving`, between the
-- two parts of `brelse`, and what its buffer was for.
pub record Wait : Type 0 where
  pub who : ℕ
  pub place : ℕ
  pub dev : ℕ
  pub blockno : ℕ
  pub leaving : Bool

-- The cache, those who refer to a buffer without its lock, and what was last written to each block of disk 1,
-- by `bwrite` or under the log.
pub record World : Type 0 where
  pub cache : Bcache
  pub waiting : List Wait
  pub view : ℕ → Data

abbrev pub with_data : Bcache → ℕ → Data → Bcache
with_data c i v = set_buf c i (record (c.buf i) { contents = v })

-- `who` gets a buffer and its lock, reads the block if need be, changes the contents and writes them
-- out or marks them dirty as `log_write` does, and gives the buffer back. Contents are changed only
-- after `bread` returned, so the buffer is valid. Fewer than 2^32 - 2 processes are between two parts.
pub data Step : World → World → Type 0 where
  asks :
      {w : World} (who d b i : ℕ) (c : Bcache)
      → d ≢ 0
      → length w.waiting + 2 < 2 ^ 32
      → bget d b w.cache ≡ ok (c, i)
      → Step w (record w {
        cache = c;
        waiting =
            record { who = who; place = i; dev = d; blockno = b; leaving = false } ∷ w.waiting;
      })
  locks :
      {w : World} (before after : List Wait) (a : Wait) (lk : Sleeplock)
      → w.waiting ≡ before ++ (a ∷ after)
      → a.leaving ≡ false
      → acquiresleep a.who (w.cache.buf a.place).lock ≡ some lk
      → Step w (record w {
        cache = set_buf w.cache a.place (record (w.cache.buf a.place) { lock = lk });
        waiting = before ++ after;
      })
  reads :
      {w : World} (who i : ℕ) (c : Bcache)
      → bread_rest who i w.cache ≡ ok c
      → Step w (record w { cache = c })
  writes :
      {w : World} (who i : ℕ) (v : Data) (c : Bcache)
      → (w.cache.buf i).valid ≡ true
      → bwrite who i (with_data w.cache i v) ≡ ok c
      → Step w (record w { cache = c; view = update w.view (w.cache.buf i).blockno v })
  logs :
      {w : World} (who i : ℕ) (v : Data)
      → (w.cache.buf i).valid ≡ true
      → holdingsleep who (w.cache.buf i).lock ≡ true
      → Step w (record w {
        cache = set_buf w.cache i (record (w.cache.buf i) { contents = v; dirty = true });
        view = update w.view (w.cache.buf i).blockno v;
      })
  releases :
      {w : World} (who i : ℕ) (c : Bcache)
      → length w.waiting + 2 < 2 ^ 32
      → brelse_unlock who i w.cache ≡ ok c
      → Step w (record w {
        cache = c;
        waiting =
            record {
              who = who;
              place = i;
              dev = (w.cache.buf i).dev;
              blockno = (w.cache.buf i).blockno;
              leaving = true;
            }
            ∷ w.waiting;
      })
  drops :
      {w : World} (before after : List Wait) (a : Wait)
      → w.waiting ≡ before ++ (a ∷ after)
      → a.leaving ≡ true
      → Step w (record w { cache = brelse_drop a.place w.cache; waiting = before ++ after })

-- From `binit` on.
pub data Reach : World → Type 0 where
  begins :
      (disk : ℕ → Data) (disksize : ℕ)
      → Reach (record { cache = binit disk disksize; waiting = []; view = disk })
  then_step : {w u : World} → Reach w → Step w u → Reach u
