-- ===== src/Pipe/Wakeup.antt =====
-- Sleeping on a pipe: `pipewrite` and `piperead` wake the other side whenever it could go on, except
-- where a killed writer gives up.
use cs.Base.{
  ◌∙◌, ℕ, ◌+◌, ◌-◌, ◌<◌, ◌≡◌, ◌≢◌, ◌⊎◌, refl, ap, sym, Bool, true, false, Option, none, List, [],
  ◌∷◌, ◌++◌, arith, if◌then◌else◌, length, take, inl, inr, length-append, length-take, length-drop,
  min,
}
use cs.Pipe.{Pipe, Run, WriteRun, returned, pipesize, write_resume, pipeclose}
use cs.Pipe.Window.{held, contents, length-contents}
use cs.Pipe.Write.{Wrote, room, write_resume_lem}
use cs.Pipe.Read.{DidRead, waits, piperead_lem}
use cs.Pipe.Fifo.{
  System, Step, Reach, start, after_write, after_read, after_close, IsFifo, Reach-IsFifo, write,
  read, close_write, close_read, kill_reader, kill_writer, fresh, next,
}

-- Whoever sleeps has nothing to do: readers an empty pipe that may still be written, writers a full
-- one that may still be read.
pub record IsAwake (s : System) : Type 0 where
  pub readers :
      (s.readers ≡ []) ⊎ ((held s.pipe ≡ 0) × (s.pipe.writeopen ≡ true) × (s.pipe.readopen ≡ true))
  pub writers : (s.writers ≡ []) ⊎ ((held s.pipe ≡ pipesize) × (s.pipe.readopen ≡ true))

held-Wrote :
    {killed : Bool} {p : Pipe} {i : ℕ} {bs : List ℕ} {r : WriteRun}
    → Wrote killed p i bs r
    → held r.pipe ≡ held p + min (room p) (length bs)
held-Wrote {killed} {p} {i} {bs} {r} w = omega (
  arith,
  length-contents r.pipe,
  length-contents p,
  ap (length {A = ℕ}) w.stored,
  length-append (contents p) (take (room p) bs),
  length-take (room p) bs,
)

held-DidRead :
    {killed : Bool} {p : Pipe} {n : ℕ} {r : Run (Option (List ℕ)) ℕ}
    → DidRead killed p n r
    → held r.pipe ≡ (if waits p then held p else held p - n)
held-DidRead {killed} {p} {n} {r} w =
    ground (arith, length-contents r.pipe, length-contents p, w.left, length-drop n (contents p))

module _ (s : System) (f : IsFifo s) (a : IsAwake s) where
  write-IsAwake :
      (i : ℕ) (bs : List ℕ) → s.pipe.writeopen ≡ true → IsAwake (after_write s false i bs)
  write-IsAwake i bs o =
      let w = write_resume_lem false s.pipe i bs f.valid in
      record {
        readers = ground (arith, w.woken, w.readopen, w.writeopen, held-Wrote w, f.valid.bounded);
        writers = ground (arith, w.ending, w.readopen, held-Wrote w, f.valid.bounded);
      }

  read-IsAwake : (killed : Bool) (n : ℕ) → s.pipe.readopen ≡ true → IsAwake (after_read s killed n)
  read-IsAwake killed n o =
      let w = piperead_lem killed s.pipe n f.valid in
      record {
        readers = ground (arith, w.ending, w.readopen, w.writeopen, held-DidRead w);
        writers = ground (arith, w.woken, w.readopen, held-DidRead w);
      }

cons_not_nil {ℓ} : {A : Type ℓ} (xs : List A) (y : A) (ys : List A) → xs ++ (y ∷ ys) ≢ []
cons_not_nil [] y ys h = cc
cons_not_nil (x ∷ xs) y ys h = cc

close-IsAwake :
    (s : System) (w : Bool)
    → IsAwake s
    → (if w then s.writers ≡ [] else s.readers ≡ [])
    → IsAwake (after_close s w)
unfolding pipeclose
close-IsAwake s true a h = record { readers = inl refl; writers = inl h }
close-IsAwake s false a h = record { readers = inl h; writers = inl refl }

Step-IsAwake : {s t : System} → Step false s t → IsFifo s → IsAwake s → IsAwake t
Step-IsAwake {s} (write true i bs h o) f a = cc
Step-IsAwake {s} (write false i bs h o) f a = write-IsAwake s f a i bs o
Step-IsAwake {s} (read killed n o) f a = read-IsAwake s f a killed n o
Step-IsAwake {s} (close_write h) f a = close-IsAwake s true a h
Step-IsAwake {s} (close_read h) f a = close-IsAwake s false a h
Step-IsAwake (kill_reader xs n ys h) f a = record {
  readers = elim a.readers [ inl e ↦ absurd (cons_not_nil xs n ys (sym h ∙ e)) | inr e ↦ inr e ];
  writers = a.writers;
}
Step-IsAwake (kill_writer xs w ys h) f a = record {
  readers = a.readers;
  writers = elim a.writers [ inl e ↦ absurd (cons_not_nil xs w ys (sym h ∙ e)) | inr e ↦ inr e ];
}

start-IsAwake : (page : List ℕ) → IsAwake (start page)
start-IsAwake page = record { readers = inl refl; writers = inl refl }

-- From a new pipe, after any interleaving in which no writer runs while it is killed: readers sleep
-- only while the pipe is empty and both its ends are open, and writers sleep only while it is full
-- and its read end is open. So no wakeup is lost.
pub Reach-IsAwake :
    (page : List ℕ) {s : System} → length page ≡ pipesize → Reach false page s → IsAwake s
Reach-IsAwake page h fresh = start-IsAwake page
Reach-IsAwake page h (next r st) = Step-IsAwake st (Reach-IsFifo page h r) (Reach-IsAwake page h r)

-- A writer that is killed when the bytes left do not fit fills the pipe, returns -1 and wakes
-- nobody: the readers that slept on the empty pipe sleep on, with 512 bytes to read.
pub killed_writer_wakes_nobody :
    (s : System) (i : ℕ) (bs : List ℕ)
    → IsFifo s
    → room s.pipe < length bs
    → ((write_resume true s.pipe i bs).ending ≡ returned none)
      × ((after_write s true i bs).readers ≡ s.readers)
      × (held (after_write s true i bs).pipe ≡ pipesize)
killed_writer_wakes_nobody s i bs f h =
    let w = write_resume_lem true s.pipe i bs f.valid in
    (
      ground (arith, w.ending),
      ground (arith, w.woken),
      omega (arith, held-Wrote w, f.valid.bounded),
    )
