-- ===== src/Cache.antt =====
-- HW2/src/bio.c, sleeplock.c and memide.c: the buffer cache, the locks of its buffers, and a disk in
-- memory.
pub mod Order
pub mod Unique
pub mod Steps
pub mod Change
pub mod Requests
pub mod Transfer
pub mod Coherent
pub mod Bread
mod Tests
use cs.Base.{
  ℕ, zero, suc, ◌+◌, ◌-◌, ◌%◌, ◌^◌, Bool, true, false, ◌&&◌, ◌||◌, not, List, [], ◌∷◌, Option, none,
  some, ◌==◌, leb, if◌then◌else◌, update, Outcome, ok, panic, ◌>>=◌,
}

-- `NBUF`
abbrev pub nbuf : ℕ
nbuf = 30

-- The bytes of a block.
abbrev pub Data : Type 0
Data = ℕ → ℕ

-- `struct sleeplock`
pub record Sleeplock : Type 0 where
  pub locked : Bool
  pub pid : ℕ

-- `none` where the caller has to sleep and try again.
abbrev pub acquiresleep : ℕ → Sleeplock → Option Sleeplock
acquiresleep pid lk = if lk.locked then none else some (record { locked = true; pid = pid })

abbrev pub releasesleep : Sleeplock → Sleeplock
releasesleep lk = record { locked = false; pid = 0 }

abbrev pub holdingsleep : ℕ → Sleeplock → Bool
holdingsleep pid lk = lk.locked && (lk.pid == pid)

-- `struct buf`, with the two flags `B_VALID` and `B_DIRTY`; the links are the list of `Bcache`.
pub record Buf : Type 0 where
  pub valid : Bool
  pub dirty : Bool
  pub dev : ℕ
  pub blockno : ℕ
  pub lock : Sleeplock
  pub refcnt : ℕ
  pub contents : Data

-- `bcache`, where `order` lists the places of the buffers from `head.next` on, most recently used
-- first, and the disk, of `disksize` blocks.
pub record Bcache : Type 0 where
  pub buf : ℕ → Buf
  pub order : List ℕ
  pub disk : ℕ → Data
  pub disksize : ℕ

abbrev pub set_buf : Bcache → ℕ → Buf → Bcache
set_buf c i b = record c { buf = update c.buf i b }

-- The loop of `binit` for `n` more buffers from place `i` on.
unfoldable pub link_from : ℕ → ℕ → List ℕ → List ℕ
link_from zero i order = order
link_from (suc n) i order = link_from n (i + 1) (i ∷ order)

abbrev pub unused : Buf
unused = record {
  valid = false;
  dirty = false;
  dev = 0;
  blockno = 0;
  lock = record { locked = false; pid = 0 };
  refcnt = 0;
  contents = λ _. 0;
}

abbrev pub binit : (ℕ → Data) → ℕ → Bcache
binit disk disksize = record {
  buf = λ _. unused;
  order = link_from nbuf 0 [];
  disk = disk;
  disksize = disksize;
}

-- Is the block already cached?
abbrev pub is_for : ℕ → ℕ → Buf → Bool
is_for dev blockno b = (b.dev == dev) && (b.blockno == blockno)

-- The first loop of `bget`, from `head.next` on.
abbrev pub find_cached : ℕ → ℕ → (ℕ → Buf) → List ℕ → Option ℕ
find_cached dev blockno buf [] = none
find_cached dev blockno buf (i ∷ is) =
    let rest = find_cached dev blockno buf is in if is_for dev blockno (buf i) then some i else rest

abbrev pub is_free : Buf → Bool
is_free b = (b.refcnt == 0) && not b.dirty

abbrev pub or_here : Bool → ℕ → Option ℕ → Option ℕ
or_here here i (some j) = some j
or_here here i none = if here then some i else none

-- The second loop, from `head.prev` back.
abbrev pub find_free : (ℕ → Buf) → List ℕ → Option ℕ
find_free buf [] = none
find_free buf (i ∷ is) = or_here (is_free (buf i)) i (find_free buf is)

abbrev pub recycle : ℕ → ℕ → Bcache → Option ℕ → Outcome (Bcache × ℕ)
recycle dev blockno c none = panic
recycle dev blockno c (some i) = ok (
  set_buf c i
      (record (c.buf i) { dev = dev; blockno = blockno; valid = false; dirty = false; refcnt = 1 }),
  i,
)

abbrev pub claim : ℕ → ℕ → Bcache → Option ℕ → Outcome (Bcache × ℕ)
claim dev blockno c (some i) =
    ok (set_buf c i (record (c.buf i) { refcnt = ((c.buf i).refcnt + 1) % 2 ^ 32 }), i)
claim dev blockno c none = recycle dev blockno c (find_free c.buf c.order)

-- `bget` up to `acquiresleep`: the place of the buffer.
abbrev pub bget : ℕ → ℕ → Bcache → Outcome (Bcache × ℕ)
bget dev blockno c = claim dev blockno c (find_cached dev blockno c.buf c.order)

-- On a buffer that is dirty.
abbrev pub write_out : ℕ → Bcache → Bcache
write_out i c =
    let b = c.buf i in
    record c {
      disk = update c.disk b.blockno b.contents;
      buf = update c.buf i (record b { dirty = false; valid = true });
    }

abbrev pub read_in : ℕ → Bcache → Bcache
read_in i c =
    let b = c.buf i in set_buf c i (record b { contents = c.disk b.blockno; valid = true })

-- By the process `pid`.
pub iderw : ℕ → ℕ → Bcache → Outcome Bcache
iderw pid i c =
    let b = c.buf i in
    if not (holdingsleep pid b.lock)
    then panic
    else if b.valid && not b.dirty
    then panic
    else if not (b.dev == 1)
    then panic
    else if leb c.disksize b.blockno
    then panic
    else if b.dirty
    then ok (write_out i c)
    else ok (read_in i c)

-- `bread` after `bget`.
abbrev pub bread_rest : ℕ → ℕ → Bcache → Outcome Bcache
bread_rest pid i c = if (c.buf i).valid then ok c else iderw pid i c

pub bwrite : ℕ → ℕ → Bcache → Outcome Bcache
bwrite pid i c =
    if not (holdingsleep pid (c.buf i).lock)
    then panic
    else iderw pid i (set_buf c i (record (c.buf i) { dirty = true }))

-- The links around the first place `i` of the list skip it.
abbrev pub unlink : ℕ → List ℕ → List ℕ
unlink i [] = []
unlink i (j ∷ js) = let rest = unlink i js in if i == j then js else j ∷ rest

-- `brelse` up to the end of `releasesleep`.
pub brelse_unlock : ℕ → ℕ → Bcache → Outcome Bcache
brelse_unlock pid i c =
    let b = c.buf i in
    if not (holdingsleep pid b.lock)
    then panic
    else ok (set_buf c i (record b { lock = releasesleep b.lock }))

-- The rest of `brelse`, under `bcache.lock`.
pub brelse_drop : ℕ → Bcache → Bcache
brelse_drop i c =
    let b = c.buf i in
    let rc = (b.refcnt + 2 ^ 32 - 1) % 2 ^ 32 in
    record c {
      buf = update c.buf i (record b { refcnt = rc });
      order = if rc == 0 then i ∷ unlink i c.order else c.order;
    }
