-- ===== src/Log/Stages.antt =====
-- The stages of `commit`, each with what the cache and the disk hold after it.
use cs.Base.{
  update, update_ne, update_self, ℕ, ◌+◌, ◌≤◌, ◌<◌, ◌≡◌, ◌≢◌, ◌⊎◌, inl, inr, refl, ap, sym, ◌∙◌,
  List, arith, get_or, All,
}
use cs.Log.{
  Block, Disk, Log, logsize, write_block, write_log, install_trans, install_from, write_head,
  write_entries, initlog,
}
use cs.Log.Disk.{write_entries_lem, write_entries_frame}
use cs.Log.Loops.{
  IsHome, IsLogged, install_frame, install_lem, write_log_frame, write_log_lem, home_ne_log,
}
use cs.Log.History.{write_log_past, install_past}
use cs.Log.Recover.{IsCommitted, entry_cases, initlog_empty, initlog_committed}

-- What the operations of the log keep between transactions: the header on the disk is empty, the
-- entries in memory are different homes that fit, and the cache differs from the disk at them only.
pub record IsReady (l : Log) : Type 0 where
  pub limit : l.lh.n ≤ logsize
  pub logged : IsLogged l.start l.size l.lh.block l.lh.n
  pub empty : l.disk l.start 0 ≡ 0
  pub clean :
      (b : ℕ)
      → IsHome l.start l.size b
      → ((j : ℕ) → j < l.lh.n → get_or l.lh.block j 0 ≢ b)
      → l.view b ≡ l.disk b

-- Recovery from `d` gives every home the contents that `t` has.
abbrev pub RecoversTo : ℕ → ℕ → Disk → Disk → Type 0
RecoversTo start size d t = (b : ℕ) → IsHome start size b → (initlog d start size).disk b ≡ t b

-- A crash that leaves `d` loses the whole transaction or nothing of it.
abbrev pub IsAtomic : Log → Disk → Type 0
IsAtomic l d = RecoversTo l.start l.size d l.disk ⊎ RecoversTo l.start l.size d l.view

module _ (l : Log) (r : IsReady l) where
  -- before the header is written
  pub record IsOld (d : Disk) : Type 0 where
    pub header : d l.start 0 ≡ 0
    pub homes : (b : ℕ) → IsHome l.start l.size b → d b ≡ l.disk b

  pub IsNew : Disk → Type 0
  IsNew = IsCommitted l.start l.size l.lh.block l.lh.n l.view

  pub IsOld-IsAtomic : (d : Disk) → IsOld d → IsAtomic l d
  IsOld-IsAtomic d o = inl (λ b h.
      initlog_empty d l.start l.size b (omega (arith, r.logged.fits)) o.header h ∙ o.homes b h)

  pub IsNew-IsAtomic : (d : Disk) → IsNew d → IsAtomic l d
  unfolding IsNew
  IsNew-IsAtomic d c =
      inr
        (λ b h. initlog_committed l.lh.block l.lh.n l.view d l.start l.size b r.limit r.logged c h)

  IsOld-log :
      (d : Disk) (j : ℕ) (v : Block) → j < l.lh.n → IsOld d → IsOld (update d (l.start + j + 1) v)
  IsOld-log d j v lt o = record {
    header =
        ap (λ (x : Block). x 0) (update_ne d (l.start + j + 1) l.start v (λ e. omega arith))
        ∙ o.header;
    homes = λ b h.
        update_ne d (l.start + j + 1) b v
          (λ e. home_ne_log (j + 1) h (omega (arith, r.logged.fits)) (omega arith))
        ∙ o.homes b h;
  }

  home_ne : (i j : ℕ) → j < l.lh.n → i ≤ l.lh.n → get_or l.lh.block j 0 ≢ l.start + i
  home_ne i j lt le = home_ne_log i (r.logged.homes j lt) (omega (arith, r.logged.fits))

  IsNew-install :
      (d : Disk) (j : ℕ) (v : Block)
      → j < l.lh.n
      → IsNew d
      → IsNew (update d (get_or l.lh.block j 0) v)
  unfolding IsNew
  IsNew-install d j v lt c =
      let b = get_or l.lh.block j 0 in
      let at_start : update d b v l.start ≡ d l.start =
        update_ne d b l.start v (λ e. home_ne 0 j lt (omega arith) (omega arith)) in
      record {
        header = ap (λ (x : Block). x 0) at_start ∙ c.header;
        entries = λ i h. ap (λ (x : Block). x (i + 1)) at_start ∙ c.entries i h;
        logged = λ i h.
            update_ne d b (l.start + i + 1) v
              (λ e. home_ne (i + 1) j lt (omega arith) (omega arith))
            ∙ c.logged i h;
        rest = λ q h ne. update_ne d b q v (ne j lt) ∙ c.rest q h ne;
      }

  abbrev pub at : Disk → Disk → List Disk → Log
  at v d x = record l { view = v; disk = d; past = x }

  -- after `write_log`
  pub record Stage1 (v d : Disk) (x : List Disk) : Type 0 where
    pub log_view : (j : ℕ) → j < l.lh.n → v (l.start + j + 1) ≡ l.view (get_or l.lh.block j 0)
    pub log_disk : (j : ℕ) → j < l.lh.n → d (l.start + j + 1) ≡ l.view (get_or l.lh.block j 0)
    pub home_view : (b : ℕ) → IsHome l.start l.size b → v b ≡ l.view b
    pub old : IsOld d
    pub past : All (IsAtomic l) x

  pub stage1 : All (IsAtomic l) l.past → let m = write_log l in Stage1 m.view m.disk m.past
  unfolding write_log
  stage1 q =
      let n = l.lh.n in
      let old : IsOld l.disk = record { header = r.empty; homes = λ b h. refl } in
      let hist =
        write_log_past IsOld (IsAtomic l) IsOld-IsAtomic n 0 n l (omega arith) IsOld-log old q in
      record {
        log_view = λ j h. (write_log_lem n 0 n l j (omega arith) r.logged (omega arith) h).0;
        log_disk = λ j h. (write_log_lem n 0 n l j (omega arith) r.logged (omega arith) h).1;
        home_view = λ b h.
            (write_log_frame n 0 l b
              (λ j lo hi e. home_ne_log (j + 1) h (omega (arith, r.logged.fits)) (omega arith))).0;
        old = hist.0;
        past = hist.1;
      }

  -- after the header is written
  pub record Stage2 (v d : Disk) (x : List Disk) : Type 0 where
    pub log_view : (j : ℕ) → j < l.lh.n → v (l.start + j + 1) ≡ l.view (get_or l.lh.block j 0)
    pub home_view : (b : ℕ) → IsHome l.start l.size b → v b ≡ l.view b
    pub new : IsNew d
    pub past : All (IsAtomic l) x

  start_ne_home : (b : ℕ) → IsHome l.start l.size b → l.start ≢ b
  start_ne_home b h e = home_ne_log 0 h (omega (arith, r.logged.fits)) (omega arith)

  pub stage2 :
      (v d : Disk) (x : List Disk)
      → Stage1 v d x
      → let m = write_head (at v d x) in Stage2 m.view m.disk m.past
  unfolding write_head write_block IsNew
  stage2 v d x s =
      let n = l.lh.n in
      let hb0 = update (v l.start) 0 n in
      let hb = write_entries l.lh.block n 0 hb0 in
      let at_start : update d l.start hb l.start ≡ hb = update_self d l.start hb in
      record {
        log_view =
            λ j h. update_ne v l.start (l.start + j + 1) hb (λ e. omega arith) ∙ s.log_view j h;
        home_view = λ b h. update_ne v l.start b hb (start_ne_home b h) ∙ s.home_view b h;
        new = record {
          header =
              ap (λ (x : Block). x 0) at_start
              ∙ write_entries_frame l.lh.block n 0 hb0 0 (omega arith)
              ∙ update_self (v l.start) 0 n;
          entries = λ j h.
              ap (λ (x : Block). x (j + 1)) at_start
              ∙ write_entries_lem l.lh.block n 0 hb0 j (omega arith) (omega arith);
          logged =
              λ j h. update_ne d l.start (l.start + j + 1) hb (λ e. omega arith) ∙ s.log_disk j h;
          rest = λ b h ne.
              update_ne d l.start b hb (start_ne_home b h) ∙ s.old.homes b h ∙ sym (r.clean b h ne);
        };
        past = (IsOld-IsAtomic d s.old, s.past);
      }

  installed :
      (v d : Disk) (x : List Disk)
      → Stage2 v d x
      → (b : ℕ) → IsHome l.start l.size b
      → ((install_from l.lh.n 0 (at v d x)).view b ≡ l.view b)
        × ((install_from l.lh.n 0 (at v d x)).disk b ≡ l.view b)
  unfolding IsNew
  installed v d x s b h =
      let n = l.lh.n in
      let m = at v d x in
      elim (entry_cases l.lh.block n b) [
        | inl (j, lt, e) ↦
            let (pv, pd) = install_lem n 0 n m j (omega arith) r.logged (omega arith) lt in
            rw (← e) (pv ∙ s.log_view j lt, pd ∙ s.log_view j lt)
        | inr ne ↦
            let (pv, pd) = install_frame n 0 m b (λ j lo hi. ne j (omega arith)) in
            (pv ∙ s.home_view b h, pd ∙ s.new.rest b h ne)
      ]

  -- after the installation
  pub record Stage3 (v d : Disk) (x : List Disk) : Type 0 where
    pub home_view : (b : ℕ) → IsHome l.start l.size b → v b ≡ l.view b
    pub home_disk : (b : ℕ) → IsHome l.start l.size b → d b ≡ l.view b
    pub new : IsNew d
    pub past : All (IsAtomic l) x

  pub stage3 :
      (v d : Disk) (x : List Disk)
      → Stage2 v d x
      → let m = install_trans (at v d x) in Stage3 m.view m.disk m.past
  unfolding install_trans IsNew
  stage3 v d x s =
      let n = l.lh.n in
      let m = at v d x in
      let hist =
        install_past IsNew (IsAtomic l) IsNew-IsAtomic n 0 n m (omega arith) IsNew-install s.new
          s.past in
      let homes = λ (b : ℕ) (h : IsHome l.start l.size b). installed v d x s b h in
      record {
        home_view = λ b h. (homes b h).0;
        home_disk = λ b h. (homes b h).1;
        new = hist.0;
        past = hist.1;
      }
