-- ===== src/Pipe/Tests.antt =====
-- A pipe at work.
use cs.Base.{
  ℕ, ◌^◌, ◌≤◌, ◌≡◌, refl, Bool, true, false, ◌-◌, none, some, List, [], ◌∷◌, ◌++◌, arith, length,
  replicate,
}
use cs.Pipe.{
  Pipe, at_nwrite, returned, sleeping, init, pipesize, write_loop, write_resume, pipewrite,
  piperead, copy_loop,
}
use cs.Pipe.Window.{IsValid, held, contents}
use cs.Pipe.Write.{Wrote, write_resume_lem}
use cs.Pipe.Read.{DidRead, piperead_lem}
use cs.Pipe.Fifo.{
  System, Reach, IsFifo, start, after_write, after_read, Reach-fifo, Reach-IsFifo, fresh, next,
  write, read,
}
use cs.Pipe.Wakeup.{IsAwake, Reach-IsAwake, killed_writer_wakes_nobody}

abbrev page : List ℕ
page = replicate 512 0

page_size : length page ≡ pipesize
page_size = refl

-- two bytes across the wrap of both counters
abbrev wrapped : Pipe
wrapped = record {
  lock = false;
  bytes = 9 ∷ replicate 510 0 ++ (8 ∷ []);
  nread = 2 ^ 32 - 1;
  nwrite = 1;
  readopen = true;
  writeopen = true;
}

wrapped-IsValid : IsValid wrapped
wrapped-IsValid = record {
  size = refl;
  read_fits = omega arith;
  write_fits = omega arith;
  bounded = omega arith;
}

wrapped_runs :
    ((piperead false wrapped 5).ending ≡ returned (some (8 ∷ 9 ∷ [])))
    × ((pipewrite false wrapped (1 ∷ 2 ∷ [])).ending ≡ returned (some 2))
    × ((pipewrite false wrapped (replicate 511 3)).ending ≡ sleeping at_nwrite (510, 3 ∷ []))
    × ((pipewrite true wrapped (replicate 511 3)).ending ≡ returned none)
unfolding pipewrite piperead write_resume write_loop copy_loop
wrapped_runs = (refl, refl, refl, refl)

write_resume_lem_example :
    Wrote false wrapped 0 (1 ∷ 2 ∷ []) (write_resume false wrapped 0 (1 ∷ 2 ∷ []))
write_resume_lem_example = write_resume_lem false wrapped 0 (1 ∷ 2 ∷ []) wrapped-IsValid

piperead_lem_example : DidRead false wrapped 1 (piperead false wrapped 1)
piperead_lem_example = piperead_lem false wrapped 1 wrapped-IsValid

abbrev waiting : System
waiting = after_read (start page) false 3

-- a reader sleeps, then a writer comes
abbrev served : System
served = after_write waiting false 0 (7 ∷ 8 ∷ [])

served-Reach : {k : Bool} → Reach k page served
unfolding init piperead copy_loop
served-Reach {k} = next (next fresh (read false 3 refl)) (write false 0 (7 ∷ 8 ∷ []) refl refl)

Reach-fifo_example :
    (served.sent ≡ served.got ++ contents served.pipe) × (length (contents served.pipe) ≤ pipesize)
Reach-fifo_example = Reach-fifo {kills = true} page page_size served-Reach

Reach-IsAwake_example : IsAwake served
Reach-IsAwake_example = Reach-IsAwake page page_size served-Reach

waiting-IsFifo : IsFifo waiting
unfolding init
waiting-IsFifo = Reach-IsFifo {kills = true} page page_size (next fresh (read false 3 refl))

killed_writer_wakes_nobody_example :
    ((write_resume true waiting.pipe 0 (replicate 513 1)).ending ≡ returned none)
    × ((after_write waiting true 0 (replicate 513 1)).readers ≡ waiting.readers)
    × (held (after_write waiting true 0 (replicate 513 1)).pipe ≡ pipesize)
unfolding piperead copy_loop init
killed_writer_wakes_nobody_example =
    killed_writer_wakes_nobody waiting 0 (replicate 513 1) waiting-IsFifo (omega arith)
