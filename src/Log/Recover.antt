-- ===== src/Log/Recover.antt =====
-- `initlog` at boot: what recovery makes of a disk that a crash left.
use cs.Base.{
  false, ℕ, zero, suc, ◌+◌, ◌≤◌, ◌<◌, ◌≡◌, ◌≢◌, ◌⊎◌, inl, inr, refl, ap, sym, ◌∙◌, List, [], arith,
  get_or, length, ℕ_discrete, replicate,
}
use cs.Log.{
  Disk, Log, logsize, write_block, install_trans, read_head, write_head, clear, recover_from_log,
  initlog,
}
use cs.Log.Disk.{read_entries_lem}
use cs.Log.Loops.{IsHome, IsLogged, install-SameLog, install_frame, install_lem}

-- Whether a block is among the first `n` entries.
pub entry_cases :
    (block : List ℕ) (n b : ℕ)
    → ((j : ℕ) × (j < n) × (get_or block j 0 ≡ b)) ⊎ ((j : ℕ) → j < n → get_or block j 0 ≢ b)
entry_cases block zero b = inr (λ j h. absurd (omega arith))
entry_cases block (suc n) b = elim (ℕ_discrete (get_or block n 0) b) [
  | yes e ↦ inl (n, omega arith, e)
  | no ne ↦ elim (entry_cases block n b) [
    | inl (j, h, e) ↦ inl (j, omega arith, e)
    | inr none_below ↦ inr (λ j h. elim (ℕ_discrete j n) [
      | yes e ↦ λ c. ne (ap (λ i. get_or block i 0) (sym e) ∙ c)
      | no below ↦ none_below j (omega arith)
    ])
  ]
]

-- A disk whose header commits the first `n` entries of `block`, with the new contents in the log.
pub record IsCommitted (start size : ℕ) (block : List ℕ) (n : ℕ) (new : Disk) (d : Disk)
    : Type 0 where
  pub header : d start 0 ≡ n
  pub entries : (j : ℕ) → j < n → d start (j + 1) ≡ get_or block j 0
  pub logged : (j : ℕ) → j < n → d (start + j + 1) ≡ new (get_or block j 0)
  pub rest : (b : ℕ) → IsHome start size b → ((j : ℕ) → j < n → get_or block j 0 ≢ b) → d b ≡ new b

-- `write_head` writes the block of the header only.
pub write_head_frame : (l : Log) (b : ℕ) → l.start ≢ b → (write_head l).disk b ≡ l.disk b
unfolding write_head write_block
write_head_frame l b h = ground arith

-- The last write of recovery is that of the header.
recover_frame :
    (l : Log) (b : ℕ)
    → l.start ≢ b
    → (recover_from_log l).disk b ≡ (install_trans (read_head l)).disk b
unfolding recover_from_log install_trans read_head
recover_frame l b h =
    let m = read_head l in
    write_head_frame (clear (install_trans m)) b
      (λ e. h (sym (install-SameLog m.lh.n 0 m).start ∙ e))

home_ne_start : {start size b : ℕ} → 0 < size → IsHome start size b → start ≢ b
home_ne_start h (inl i) e = omega arith
home_ne_start h (inr i) e = omega arith

abbrev booted : Disk → ℕ → ℕ → Log
booted d start size = record {
  start = start;
  size = size;
  outstanding = 0;
  committing = false;
  lh = record { n = 0; block = replicate logsize 0 };
  view = d;
  disk = d;
  past = [];
}

-- With an empty header nothing is installed.
install_none :
    (l : Log) (b : ℕ) → l.view l.start 0 ≡ 0 → (install_trans (read_head l)).disk b ≡ l.disk b
unfolding install_trans read_head
install_none l b e =
    (install_frame (l.view l.start 0) 0 (read_head l) b (λ j lo hi. absurd (omega (arith, e)))).1

-- The header read back has the entries that were committed.
read_head_entries :
    (block : List ℕ) (n : ℕ) (new : Disk) (l : Log)
    → n ≤ length l.lh.block
    → IsCommitted l.start l.size block n new l.view
    → (j : ℕ) → j < n
    → get_or (read_head l).lh.block j 0 ≡ get_or block j 0
unfolding read_head
read_head_entries block n new l le c j h =
    read_entries_lem (l.view l.start) (l.view l.start 0) 0 l.lh.block j (omega (arith, c.header))
      (omega arith) (omega (arith, c.header))
    ∙ c.entries j h

IsLogged-read_head :
    (block : List ℕ) (n : ℕ) (new : Disk) (l : Log)
    → n ≤ length l.lh.block
    → IsLogged l.start l.size block n
    → IsCommitted l.start l.size block n new l.view
    → IsLogged l.start l.size (read_head l).lh.block n
IsLogged-read_head block n new l le w c =
    let same = read_head_entries block n new l le c in
    record {
      fits = w.fits;
      homes = λ i h. rw (same i h) (w.homes i h);
      distinct = λ i j lt h e. w.distinct i j lt h (sym (same i (omega arith)) ∙ e ∙ same j h);
    }

install_committed :
    (block : List ℕ) (n : ℕ) (new : Disk) (l : Log) (b : ℕ)
    → n ≤ length l.lh.block
    → IsLogged l.start l.size block n
    → IsCommitted l.start l.size block n new l.view
    → l.view ≡ l.disk
    → IsHome l.start l.size b
    → (install_trans (read_head l)).disk b ≡ new b
unfolding install_trans read_head
install_committed block n new l b le w c e h =
    let same = read_head_entries block n new l le c in
    let m = read_head l in
    elim (entry_cases block n b) [
      | inl (j, lt, at_b) ↦
          rw (← at_b, ← same j lt)
            ((install_lem m.lh.n 0 n m j (omega (arith, c.header))
                (IsLogged-read_head block n new l le w c) (omega arith) lt).1
              ∙ c.logged j lt
              ∙ ap new (sym (same j lt)))
      | inr not_entry ↦
          (install_frame m.lh.n 0 m b (λ j lo hi eq.
            not_entry j (omega (arith, c.header)) (sym (same j (omega (arith, c.header))) ∙ eq))).1
          ∙ ap (λ (d : Disk). d b) (sym e)
          ∙ c.rest b h not_entry
    ]

-- A disk whose log is empty keeps all its homes.
pub initlog_empty :
    (d : Disk) (start size b : ℕ)
    → 0 < size
    → d start 0 ≡ 0
    → IsHome start size b
    → (initlog d start size).disk b ≡ d b
unfolding initlog
initlog_empty d start size b pos e h =
    recover_frame (booted d start size) b (home_ne_start pos h)
    ∙ install_none (booted d start size) b e

-- A disk whose log is committed gets the new contents of all homes.
pub initlog_committed :
    (block : List ℕ) (n : ℕ) (new d : Disk) (start size b : ℕ)
    → n ≤ logsize
    → IsLogged start size block n
    → IsCommitted start size block n new d
    → IsHome start size b
    → (initlog d start size).disk b ≡ new b
unfolding initlog
initlog_committed block n new d start size b le w c h =
    recover_frame (booted d start size) b (home_ne_start (omega (arith, w.fits)) h)
    ∙ install_committed block n new (booted d start size) b le w c refl h
