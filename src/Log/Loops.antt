-- ===== src/Log/Loops.antt =====
-- What `write_log` and `install_trans` leave in the cache and on the disk.
use cs.Base.{
  update_ne, update_self, ℕ, zero, suc, ◌+◌, ◌≤◌, ◌<◌, ◌≡◌, ◌≢◌, ◌⊎◌, inl, inr, refl, ap, sym, ◌∙◌,
  List, arith, get_or, ℕ_discrete,
}
use cs.Log.{Log, write_block, install_from, write_log_from}

-- Outside the log, whose blocks are `start` to `start + size - 1`.
abbrev pub IsHome : ℕ → ℕ → ℕ → Type 0
IsHome start size b = (b < start) ⊎ (start + size ≤ b)

-- The first `n` entries of a header that commits write: homes, all different, with room in the log.
pub record IsLogged (start size : ℕ) (block : List ℕ) (n : ℕ) : Type 0 where
  pub fits : n + 1 ≤ size
  pub homes : (i : ℕ) → i < n → IsHome start size (get_or block i 0)
  pub distinct : (i j : ℕ) → i < j → j < n → get_or block i 0 ≢ get_or block j 0

-- Neither loop changes anything but blocks.
pub record SameLog (l m : Log) : Type 0 where
  pub start : m.start ≡ l.start
  pub size : m.size ≡ l.size
  pub lh : m.lh ≡ l.lh
  pub outstanding : m.outstanding ≡ l.outstanding
  pub committing : m.committing ≡ l.committing

pub install-SameLog : (k tail : ℕ) (l : Log) → SameLog l (install_from k tail l)
unfolding install_from write_block
install-SameLog zero tail l = record {
  start = refl;
  size = refl;
  lh = refl;
  outstanding = refl;
  committing = refl;
}
install-SameLog (suc k) tail l =
    let h = install-SameLog k (tail + 1) _ in
    record {
      start = h.start;
      size = h.size;
      lh = h.lh;
      outstanding = h.outstanding;
      committing = h.committing;
    }

pub write_log-SameLog : (k tail : ℕ) (l : Log) → SameLog l (write_log_from k tail l)
unfolding write_log_from write_block
write_log-SameLog zero tail l = record {
  start = refl;
  size = refl;
  lh = refl;
  outstanding = refl;
  committing = refl;
}
write_log-SameLog (suc k) tail l =
    let h = write_log-SameLog k (tail + 1) _ in
    record {
      start = h.start;
      size = h.size;
      lh = h.lh;
      outstanding = h.outstanding;
      committing = h.committing;
    }

pub home_ne_log : {start size b : ℕ} (j : ℕ) → IsHome start size b → j < size → b ≢ start + j
home_ne_log j (inl h) k e = omega arith
home_ne_log j (inr h) k e = omega arith

-- A block that is no entry from `tail` on keeps its contents.
pub install_frame :
    (k tail : ℕ) (l : Log) (b : ℕ)
    → ((j : ℕ) → tail ≤ j → j < tail + k → get_or l.lh.block j 0 ≢ b)
    → ((install_from k tail l).view b ≡ l.view b) × ((install_from k tail l).disk b ≡ l.disk b)
unfolding install_from write_block
install_frame zero tail l b h = (refl, refl)
install_frame (suc k) tail l b h =
    let ne = h tail (omega arith) (omega arith) in
    let ih =
      install_frame k (tail + 1)
        (write_block l (get_or l.lh.block tail 0) (l.view (l.start + tail + 1))) b
        (λ j lo hi. h j (omega arith) (omega arith)) in
    (ih.0 ∙ update_ne l.view _ b _ ne, ih.1 ∙ update_ne l.disk _ b _ ne)

-- Each entry's home gets the log block of its index.
pub install_lem :
    (k tail n : ℕ) (l : Log) (j : ℕ)
    → tail + k ≡ n
    → IsLogged l.start l.size l.lh.block n
    → tail ≤ j
    → j < n
    → ((install_from k tail l).view (get_or l.lh.block j 0) ≡ l.view (l.start + j + 1))
      × ((install_from k tail l).disk (get_or l.lh.block j 0) ≡ l.view (l.start + j + 1))
unfolding install_from write_block
install_lem zero tail n l j en w lo hi = absurd (omega arith)
install_lem (suc k) tail n l j en w lo hi =
    let b = get_or l.lh.block tail 0 in
    let l' = write_block l b (l.view (l.start + tail + 1)) in
    elim (ℕ_discrete tail j) [
      | yes e ↦
          let (v, d) =
            install_frame k (tail + 1) l' b
              (λ i ilo ihi c. w.distinct tail i (omega arith) (omega arith) (sym c)) in
          let at_j : get_or l.lh.block j 0 ≡ b = ap (λ i. get_or l.lh.block i 0) (sym e) in
          rw (at_j, ← e)
            (
              v ∙ update_self l.view b (l.view (l.start + tail + 1)),
              d ∙ update_self l.disk b (l.view (l.start + tail + 1)),
            )
      | no ne ↦
          let ih = install_lem k (tail + 1) n l' j (omega arith) w (omega arith) hi in
          let kept : l'.view (l.start + j + 1) ≡ l.view (l.start + j + 1) =
            update_ne l.view b (l.start + j + 1) _ (λ c.
              home_ne_log (j + 1) (w.homes tail (omega arith)) (omega (arith, w.fits))
                (omega arith)) in
          (ih.0 ∙ kept, ih.1 ∙ kept)
    ]

-- `write_log` changes no block but the log blocks of the entries.
pub write_log_frame :
    (k tail : ℕ) (l : Log) (b : ℕ)
    → ((j : ℕ) → tail ≤ j → j < tail + k → l.start + j + 1 ≢ b)
    → ((write_log_from k tail l).view b ≡ l.view b) × ((write_log_from k tail l).disk b ≡ l.disk b)
unfolding write_log_from write_block
write_log_frame zero tail l b h = (refl, refl)
write_log_frame (suc k) tail l b h =
    let ne = h tail (omega arith) (omega arith) in
    let ih =
      write_log_frame k (tail + 1)
        (write_block l (l.start + tail + 1) (l.view (get_or l.lh.block tail 0))) b
        (λ j lo hi. h j (omega arith) (omega arith)) in
    (ih.0 ∙ update_ne l.view _ b _ ne, ih.1 ∙ update_ne l.disk _ b _ ne)

-- The log block of each entry gets what the cache shows of the entry's home.
pub write_log_lem :
    (k tail n : ℕ) (l : Log) (j : ℕ)
    → tail + k ≡ n
    → IsLogged l.start l.size l.lh.block n
    → tail ≤ j
    → j < n
    → ((write_log_from k tail l).view (l.start + j + 1) ≡ l.view (get_or l.lh.block j 0))
      × ((write_log_from k tail l).disk (l.start + j + 1) ≡ l.view (get_or l.lh.block j 0))
unfolding write_log_from write_block
write_log_lem zero tail n l j en w lo hi = absurd (omega arith)
write_log_lem (suc k) tail n l j en w lo hi =
    let b = l.start + tail + 1 in
    let x = l.view (get_or l.lh.block tail 0) in
    let l' = write_block l b x in
    elim (ℕ_discrete tail j) [
      | yes e ↦
          let (v, d) = write_log_frame k (tail + 1) l' b (λ i ilo ihi. omega arith) in
          rw (← e) (v ∙ update_self l.view b x, d ∙ update_self l.disk b x)
      | no ne ↦
          let ih = write_log_lem k (tail + 1) n l' j (omega arith) w (omega arith) hi in
          let kept : l'.view (get_or l.lh.block j 0) ≡ l.view (get_or l.lh.block j 0) =
            update_ne l.view b (get_or l.lh.block j 0) x
              (λ c. home_ne_log (tail + 1) (w.homes j hi) (omega (arith, w.fits)) (omega arith)) in
          (ih.0 ∙ kept, ih.1 ∙ kept)
    ]
