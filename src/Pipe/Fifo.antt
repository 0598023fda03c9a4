-- ===== src/Pipe/Fifo.antt =====
-- Processes that share a pipe, as interleaved stretches of `pipewrite`, `piperead` and `pipeclose`.
-- A stretch holds `p->lock` from its start to its return or sleep, so stretches do not overlap.
-- A process that a wakeup or a kill takes off its channel may run its next stretch at any time.
use cs.Base.{
  ◌∙◌, ℕ, ◌-◌, ◌≤◌, ◌≡◌, refl, ap, sym, Bool, true, false, not, ◌&&◌, Option, some, List, [], ◌∷◌,
  ◌++◌, arith, if◌then◌else◌, length, take, append_assoc, take-append-drop,
}
use cs.Pipe.{
  Pipe, Chan, Ending, at_nread, at_nwrite, returned, sleeping, init, pipesize, write_resume,
  piperead, pipeclose,
}
use cs.Pipe.Window.{IsValid, contents, length-contents}
use cs.Pipe.Write.{room, write_resume_lem}
use cs.Pipe.Read.{waits, piperead_lem, read_ending, read_left}

-- `sent` is what writers have put in the pipe and `got` what readers have taken, in order;
-- `readers` sleep on `&p->nread` and `writers` on `&p->nwrite`, each with its work left.
pub record System : Type 0 where
  pub pipe : Pipe
  pub sent : List ℕ
  pub got : List ℕ
  pub readers : List ℕ
  pub writers : List (ℕ × List ℕ)

abbrev pub wakes_readers : List Chan → Bool
wakes_readers [] = false
wakes_readers (at_nread ∷ cs) = true
wakes_readers (at_nwrite ∷ cs) = wakes_readers cs

abbrev pub wakes_writers : List Chan → Bool
wakes_writers [] = false
wakes_writers (at_nwrite ∷ cs) = true
wakes_writers (at_nread ∷ cs) = wakes_writers cs

abbrev pub queued {ℓ} : {A : Type ℓ} → Bool → List A → List A
queued woken xs = if woken then [] else xs

abbrev pub asleep : {R W : Type 0} → Ending R W → List W → List W
asleep (returned r) ws = ws
asleep (sleeping c w) ws = w ∷ ws

abbrev pub taken : Ending (Option (List ℕ)) ℕ → List ℕ
taken (returned (some bs)) = bs
taken _ = []

-- A writer is called or goes on, with `bs` left from byte `i`.
abbrev pub after_write : System → Bool → ℕ → List ℕ → System
after_write s killed i bs =
    let r = write_resume killed s.pipe i bs in
    record s {
      pipe = r.pipe;
      sent = s.sent ++ take (r.count - i) bs;
      readers = queued (wakes_readers r.woken) s.readers;
      writers = asleep r.ending s.writers;
    }

abbrev pub after_read : System → Bool → ℕ → System
after_read s killed n =
    let r = piperead killed s.pipe n in
    record s {
      pipe = r.pipe;
      got = s.got ++ taken r.ending;
      readers = asleep r.ending s.readers;
      writers = queued (wakes_writers r.woken) s.writers;
    }

abbrev pub after_close : System → Bool → System
after_close s writable =
    let (p, c, freed) = pipeclose s.pipe writable in
    record s {
      pipe = p;
      readers = queued (wakes_readers (c ∷ [])) s.readers;
      writers = queued (wakes_writers (c ∷ [])) s.writers;
    }

-- With `kills` false no writer runs while killed. A process calls through an end that is open. An
-- end is closed when no file refers to it, so not while a process sleeps in a call on that end.
pub data Step (kills : Bool) (s : System) : System → Type 0 where
  write :
      (killed : Bool) (i : ℕ) (bs : List ℕ)
      → (killed && not kills) ≡ false
      → s.pipe.writeopen ≡ true
      → Step kills s (after_write s killed i bs)
  read : (killed : Bool) (n : ℕ) → s.pipe.readopen ≡ true → Step kills s (after_read s killed n)
  close_write : s.writers ≡ [] → Step kills s (after_close s true)
  close_read : s.readers ≡ [] → Step kills s (after_close s false)
  kill_reader :
      (xs : List ℕ) (n : ℕ) (ys : List ℕ)
      → s.readers ≡ xs ++ (n ∷ ys)
      → Step kills s (record s { readers = xs ++ ys })
  kill_writer :
      (xs : List (ℕ × List ℕ)) (w : ℕ × List ℕ) (ys : List (ℕ × List ℕ))
      → s.writers ≡ xs ++ (w ∷ ys)
      → Step kills s (record s { writers = xs ++ ys })

abbrev pub start : List ℕ → System
start page = record { pipe = init page; sent = []; got = []; readers = []; writers = [] }

pub data Reach (kills : Bool) (page : List ℕ) : System → Type 0 where
  fresh : Reach kills page (start page)
  next : {s t : System} → Reach kills page s → Step kills s t → Reach kills page t

pub record IsFifo (s : System) : Type 0 where
  pub valid : IsValid s.pipe
  pub order : s.sent ≡ s.got ++ contents s.pipe

-- What a reader takes and what it leaves make up the queue.
taken-append-left :
    (waiting killed : Bool) (n : ℕ) (q : List ℕ)
    → taken (read_ending waiting killed n q) ++ read_left waiting n q ≡ q
taken-append-left true true n q = refl
taken-append-left true false n q = refl
taken-append-left false killed n q = take-append-drop n q

close-IsValid : (p : Pipe) (w : Bool) → IsValid p → IsValid (pipeclose p w).0
unfolding pipeclose
close-IsValid p true v = record {
  size = v.size;
  read_fits = v.read_fits;
  write_fits = v.write_fits;
  bounded = v.bounded;
}
close-IsValid p false v = record {
  size = v.size;
  read_fits = v.read_fits;
  write_fits = v.write_fits;
  bounded = v.bounded;
}

contents-close : (p : Pipe) (w : Bool) → contents (pipeclose p w).0 ≡ contents p
unfolding pipeclose
contents-close p true = refl
contents-close p false = refl

pub Step-IsFifo : {k : Bool} {s t : System} → Step k s t → IsFifo s → IsFifo t
Step-IsFifo {k} {s} (write killed i bs h o) f =
    let w = write_resume_lem killed s.pipe i bs f.valid in
    record {
      valid = w.valid;
      order =
          rw (w.count, w.stored, f.order)
            (append_assoc s.got (contents s.pipe) (take (room s.pipe) bs));
    }
Step-IsFifo {k} {s} (read killed n o) f =
    let w = piperead_lem killed s.pipe n f.valid in
    record {
      valid = w.valid;
      order =
          rw (w.ending, w.left)
            (f.order
              ∙ ap (λ l. s.got ++ l)
                  (sym (taken-append-left (waits s.pipe) killed n (contents s.pipe)))
              ∙ sym (append_assoc s.got _ _));
    }
Step-IsFifo {k} {s} (close_write h) f = record {
  valid = close-IsValid s.pipe true f.valid;
  order = f.order ∙ ap (λ l. s.got ++ l) (sym (contents-close s.pipe true));
}
Step-IsFifo {k} {s} (close_read h) f = record {
  valid = close-IsValid s.pipe false f.valid;
  order = f.order ∙ ap (λ l. s.got ++ l) (sym (contents-close s.pipe false));
}
Step-IsFifo (kill_reader xs n ys h) f = record { valid = f.valid; order = f.order }
Step-IsFifo (kill_writer xs n ys h) f = record { valid = f.valid; order = f.order }

pub start-IsFifo : (page : List ℕ) → length page ≡ pipesize → IsFifo (start page)
unfolding init
start-IsFifo page h = record {
  valid = record {
    size = h;
    read_fits = omega arith;
    write_fits = omega arith;
    bounded = omega arith;
  };
  order = refl;
}

pub Reach-IsFifo :
    {kills : Bool} (page : List ℕ) {s : System}
    → length page ≡ pipesize
    → Reach kills page s
    → IsFifo s
Reach-IsFifo page h fresh = start-IsFifo page h
Reach-IsFifo page h (next r st) = Step-IsFifo st (Reach-IsFifo page h r)

-- From a new pipe over a page of 512 bytes, after any interleaving of stretches of reads and writes
-- by any number of processes, killed or not, of closes and of kills of sleeping processes: the
-- bytes that the writers have put in are, in order, those that the readers have taken followed by
-- those that the pipe holds, of which there are at most 512; also where the counters have wrapped.
pub Reach-fifo :
    {kills : Bool} (page : List ℕ) {s : System}
    → length page ≡ pipesize
    → Reach kills page s
    → (s.sent ≡ s.got ++ contents s.pipe) × (length (contents s.pipe) ≤ pipesize)
Reach-fifo page h r =
    let f = Reach-IsFifo page h r in (f.order, omega (arith, length-contents _, f.valid.bounded))
