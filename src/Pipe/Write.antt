-- ===== src/Pipe/Write.antt =====
-- `pipewrite`: one stretch of it, from the call or a wakeup to the next sleep or the return.
use cs.Base.{
  ◌∙◌, ℕ, suc, ◌+◌, ◌-◌, ◌≤◌, ◌≡◌, refl, ap, sym, Bool, false, not, ◌||◌, Option, none, some, List,
  [], ◌∷◌, ◌++◌, arith, leb, if◌then◌else◌, length, take, drop, take-nil, Bool-cases, inl, inr,
  append-nil, append_assoc,
}
use cs.Pipe.{
  Pipe, Chan, WriteRun, Ending, at_nread, at_nwrite, returned, sleeping, pipesize, acquire, release,
  full, put, write_loop, write_resume,
}
use cs.Pipe.Window.{
  IsValid, held, contents, contents-put, release-IsValid, acquire-IsValid, full_iff, not_full,
  held-put,
}

-- The bytes that still fit.
abbrev pub room : Pipe → ℕ
room p = pipesize - held p

-- A writer that finds no room gives up if nobody will read, or if it was killed.
abbrev pub gives_up : Bool → Pipe → Bool
gives_up killed p = not p.readopen || killed

-- How a stretch that starts at byte `i` with room for `k` bytes must end, and whom it wakes.
abbrev pub write_ending : Bool → ℕ → ℕ → List ℕ → Ending (Option ℕ) (ℕ × List ℕ)
write_ending gives k i bs =
    if leb (length bs) k
    then returned (some (i + length bs))
    else if gives
    then returned none
    else sleeping at_nwrite (i + k, drop k bs)

abbrev pub write_woken : Bool → ℕ → List ℕ → List Chan
write_woken gives k bs =
    if leb (length bs) k then at_nread ∷ [] else if gives then [] else at_nread ∷ []

pub record Wrote (killed : Bool) (p : Pipe) (i : ℕ) (bs : List ℕ) (r : WriteRun) : Type 0 where
  pub valid : IsValid r.pipe
  pub unlocked : r.pipe.lock ≡ false
  pub readopen : r.pipe.readopen ≡ p.readopen
  pub writeopen : r.pipe.writeopen ≡ p.writeopen
  pub stored : contents r.pipe ≡ contents p ++ take (room p) bs
  pub count : take (r.count - i) bs ≡ take (room p) bs
  pub count_from : i ≤ r.count
  pub ending : r.ending ≡ write_ending (gives_up killed p) (room p) i bs
  pub woken : r.woken ≡ write_woken (gives_up killed p) (room p) bs

self_sub : (i : ℕ) → i - i ≡ 0
self_sub i = omega arith

suc_sub : (i c : ℕ) → i + 1 ≤ c → c - i ≡ suc (c - (i + 1))
suc_sub i c h = omega arith

step_ending :
    (g : Bool) (k i b : ℕ) (bs : List ℕ)
    → write_ending g k (i + 1) bs ≡ write_ending g (suc k) i (b ∷ bs)
step_ending g k i b bs = ground arith

step_woken :
    (g : Bool) (k b : ℕ) (bs : List ℕ) → write_woken g k bs ≡ write_woken g (suc k) (b ∷ bs)
step_woken g k b bs = ground arith

module _ (killed : Bool) (p : Pipe) (i : ℕ) where
  Wrote-nil : IsValid p → Wrote killed p i [] (write_loop killed p i [])
  unfolding write_loop
  Wrote-nil v = record {
    valid = release-IsValid v;
    unlocked = refl;
    readopen = refl;
    writeopen = refl;
    stored = rw (take-nil {A = ℕ} (room p)) (sym (append-nil (contents p)));
    count = take-nil (i - i) ∙ sym (take-nil (room p));
    count_from = omega arith;
    ending = ground arith;
    woken = ground arith;
  }

  full_run : ℕ → List ℕ → WriteRun
  full_run b bs =
      if gives_up killed p
      then record { pipe = release p; woken = []; count = i; ending = returned none }
      else record {
        pipe = release p;
        woken = at_nread ∷ [];
        count = i;
        ending = sleeping at_nwrite (i, b ∷ bs);
      }

  full_ending :
      (b : ℕ) (bs : List ℕ)
      → ((full_run b bs).ending ≡ write_ending (gives_up killed p) 0 i (b ∷ bs))
        × ((full_run b bs).woken ≡ write_woken (gives_up killed p) 0 (b ∷ bs))
  unfolding full_run
  full_ending b bs = ground arith

  full_pipe :
      (b : ℕ) (bs : List ℕ) → ((full_run b bs).pipe ≡ release p) × ((full_run b bs).count ≡ i)
  unfolding full_run
  full_pipe b bs = ground arith

  Wrote-full :
      (b : ℕ) (bs : List ℕ) → IsValid p → room p ≡ 0 → Wrote killed p i (b ∷ bs) (full_run b bs)
  Wrote-full b bs v e =
      let (ep, ec) = full_pipe b bs in
      record {
        valid = rw ep (release-IsValid v);
        unlocked = rw ep;
        readopen = rw ep;
        writeopen = rw ep;
        stored = rw (ep, e) (sym (append-nil (contents p)));
        count = rw (ec, e, self_sub i);
        count_from = rw ec (omega arith);
        ending = rw e (full_ending b bs).0;
        woken = rw e (full_ending b bs).1;
      }

  Wrote-step :
      (b : ℕ) (bs : List ℕ) (r : WriteRun)
      → IsValid p
      → full p ≡ false
      → Wrote killed (put p b) (i + 1) bs r
      → Wrote killed p i (b ∷ bs) r
  Wrote-step b bs r v h w =
      let e : room p ≡ suc (room (put p b)) = omega (arith, held-put b v h, not_full v h) in
      record {
        valid = w.valid;
        unlocked = w.unlocked;
        readopen = w.readopen;
        writeopen = w.writeopen;
        stored =
            rw (e, w.stored, (contents-put b v h).1)
              (append_assoc (contents p) (b ∷ []) (take (room (put p b)) bs));
        count = rw (e, suc_sub i r.count w.count_from) (ap (λ l. b ∷ l) w.count);
        count_from = omega (arith, w.count_from);
        ending = rw e (w.ending ∙ step_ending (gives_up killed p) (room (put p b)) i b bs);
        woken = rw e (w.woken ∙ step_woken (gives_up killed p) (room (put p b)) b bs);
      }

Wrote-loop :
    (killed : Bool) (p : Pipe) (i : ℕ) (bs : List ℕ)
    → IsValid p
    → Wrote killed p i bs (write_loop killed p i bs)
unfolding write_loop full_run
Wrote-loop killed p i [] v = Wrote-nil killed p i v
Wrote-loop killed p i (b ∷ bs) v = elim (Bool-cases (full p)) [
  | inl e ↦ rw e (Wrote-full killed p i b bs v (omega (arith, full_iff v e)))
  | inr e ↦ rw e (
      Wrote-step killed p i b bs _ v e
        (Wrote-loop killed (put p b) (i + 1) bs (contents-put b v e).0))
]

-- One stretch of `pipewrite` on a pipe that holds `contents p`, with the bytes `bs` left to write
-- from byte `i` on. It appends as many of them as there is room for, in order, and no others; it
-- leaves the lock free, the ends as they were and the pipe valid. If all fit it returns the number
-- of bytes and wakes the readers; if not, it returns -1 and wakes nobody where the read end is
-- closed or the process killed, and else it wakes the readers and sleeps with the rest.
pub write_resume_lem :
    (killed : Bool) (p : Pipe) (i : ℕ) (bs : List ℕ)
    → IsValid p
    → Wrote killed p i bs (write_resume killed p i bs)
unfolding write_resume
write_resume_lem killed p i bs v =
    let w = Wrote-loop killed (acquire p) i bs (acquire-IsValid v) in
    record {
      valid = w.valid;
      unlocked = w.unlocked;
      readopen = w.readopen;
      writeopen = w.writeopen;
      stored = w.stored;
      count = w.count;
      count_from = w.count_from;
      ending = w.ending;
      woken = w.woken;
    }
