-- ===== src/Pipe.antt =====
-- HW2/src/pipe.c: a pipe of 512 bytes between processes.
pub mod Window
pub mod Write
pub mod Read
pub mod Fifo
pub mod Wakeup
mod Tests
use cs.Base.{
  ℕ, zero, suc, ◌+◌, ◌%◌, ◌^◌, Bool, true, false, not, ◌&&◌, ◌||◌, Option, none, some, List, [],
  ◌∷◌, ◌==◌, if◌then◌else◌, length, get_or, set, replicate,
}

abbrev pub pipesize : ℕ
pipesize = 512

-- `uint` arithmetic
abbrev pub add32 : ℕ → ℕ → ℕ
add32 a b = (a + b) % 2 ^ 32

-- The two channels on which processes sleep, `&p->nread` and `&p->nwrite`.
pub data Chan : Type 0 where
  at_nread at_nwrite : Chan

pub record Pipe : Type 0 where
  pub lock : Bool
  pub bytes : List ℕ
  pub nread : ℕ
  pub nwrite : ℕ
  pub readopen : Bool
  pub writeopen : Bool

-- The state that `pipealloc` sets; the page is that of `kalloc`, whatever it holds.
pub init : List ℕ → Pipe
init page = record {
  lock = false;
  bytes = page;
  nread = 0;
  nwrite = 0;
  readopen = true;
  writeopen = true;
}

abbrev pub acquire : Pipe → Pipe
acquire p = record p { lock = true }

abbrev pub release : Pipe → Pipe
release p = record p { lock = false }

abbrev pub full : Pipe → Bool
full p = p.nwrite == add32 p.nread pipesize

abbrev pub empty : Pipe → Bool
empty p = p.nread == p.nwrite

-- `p->data[p->nwrite++ % PIPESIZE] = b`
abbrev pub put : Pipe → ℕ → Pipe
put p b = record p { bytes = set p.bytes (p.nwrite % pipesize) b; nwrite = add32 p.nwrite 1 }

-- `p->data[p->nread++ % PIPESIZE]`: the byte, and the pipe after it
abbrev pub front : Pipe → ℕ
front p = get_or p.bytes (p.nread % pipesize) 0

abbrev pub advance : Pipe → Pipe
advance p = record p { nread = add32 p.nread 1 }

-- How a stretch of code that holds `p->lock` ends: with the value that the call returns, or in
-- `sleep`, with what is left to do after the wakeup.
pub data Ending (R W : Type 0) : Type 0 where
  returned : R → Ending R W
  sleeping : Chan → W → Ending R W

-- `count` is the loop variable `i` where the stretch ends.
pub record Run (R W : Type 0) : Type 0 where
  pub pipe : Pipe
  pub woken : List Chan
  pub count : ℕ
  pub ending : Ending R W

-- What a sleeping writer still has to write, from `addr[i]`.
abbrev pub WriteRun : Type 0
WriteRun = Run (Option ℕ) (ℕ × List ℕ)

-- The loop of `pipewrite` from byte `i`, up to the next `sleep` or the return. `killed` is
-- `myproc()->killed`, which one stretch reads at most once. `none` is the result -1.
pub write_loop : Bool → Pipe → ℕ → List ℕ → WriteRun
write_loop killed p i [] = record {
  pipe = release p;
  woken = at_nread ∷ [];
  count = i;
  ending = returned (some i);
}
write_loop killed p i (b ∷ bs) =
    let rest = write_loop killed (put p b) (i + 1) bs in
    if full p
    then (if not p.readopen || killed
        then record { pipe = release p; woken = []; count = i; ending = returned none }
        else record {
          pipe = release p;
          woken = at_nread ∷ [];
          count = i;
          ending = sleeping at_nwrite (i, b ∷ bs);
        })
    else rest

-- Called, or awake again in `sleep`, which takes the lock back.
pub write_resume : Bool → Pipe → ℕ → List ℕ → WriteRun
write_resume killed p i bs = write_loop killed (acquire p) i bs

pub pipewrite : Bool → Pipe → List ℕ → WriteRun
pipewrite killed p addr = write_resume killed p 0 addr

-- The copying loop of `piperead`, `n` more rounds: the bytes stored from `addr` on, and the pipe.
pub copy_loop : ℕ → Pipe → List ℕ × Pipe
copy_loop zero p = ([], p)
copy_loop (suc n) p =
    let rest = copy_loop n (advance p) in if empty p then ([], p) else (front p ∷ rest.0, rest.1)

-- A reader that sleeps has read nothing. The bytes returned are those stored at `addr`, and their
-- number is the result; `none` is -1.
pub piperead : Bool → Pipe → ℕ → Run (Option (List ℕ)) ℕ
piperead killed p n =
    let q = acquire p in
    if empty q && q.writeopen
    then (if killed
        then record { pipe = release q; woken = []; count = 0; ending = returned none }
        else record { pipe = release q; woken = []; count = 0; ending = sleeping at_nread n })
    else (let (bs, q') = copy_loop n q in
        record {
          pipe = release q';
          woken = at_nwrite ∷ [];
          count = length bs;
          ending = returned (some bs);
        })

abbrev pub close_end : Bool → Pipe → Pipe
close_end true p = record p { writeopen = false }
close_end false p = record p { readopen = false }

abbrev pub close_chan : Bool → Chan
close_chan true = at_nread
close_chan false = at_nwrite

-- The pipe after the close, the channel woken, and whether the page is freed.
pub pipeclose : Pipe → Bool → Pipe × Chan × Bool
pipeclose p writable =
    let q = close_end writable (acquire p) in
    (release q, close_chan writable, not q.readopen && not q.writeopen)
