-- ===== src/Log/Crash.antt =====
-- A commit is atomic with respect to crashes.
use cs.Base.{
  update, update_ne, update_self, ℕ, ◌≡◌, ◌≢◌, inl, inr, refl, ap, sym, subst, ◌∙◌, List, [], ◌∷◌,
  arith, All, ltb, Bool-cases,
}
use cs.Log.{
  Block, Disk, Log, write_block, write_log, install_trans, write_head, write_entries, clear, commit,
}
use cs.Log.Disk.{write_entries_frame}
use cs.Log.Loops.{IsHome, SameLog, install-SameLog, write_log-SameLog, home_ne_log}
use cs.Log.Recover.{initlog_empty}
use cs.Log.Stages.{IsReady, IsAtomic, IsNew-IsAtomic, at, Stage3, stage1, stage2, stage3}

-- What a commit of `l` leaves in `m`.
pub record DidCommit (l m : Log) : Type 0 where
  pub start : m.start ≡ l.start
  pub size : m.size ≡ l.size
  pub emptied : m.lh.n ≡ 0
  pub header : m.disk l.start 0 ≡ 0
  pub on_disk : (b : ℕ) → IsHome l.start l.size b → m.disk b ≡ l.view b
  pub in_cache : (b : ℕ) → IsHome l.start l.size b → m.view b ≡ l.view b
  pub atomic : All (IsAtomic l) (m.disk ∷ m.past)

shape : {l m : Log} → SameLog l m → m ≡ record l { view = m.view; disk = m.disk; past = m.past }
shape {l} {m} h = λ i. record {
  start = h.start i;
  size = h.size i;
  outstanding = h.outstanding i;
  committing = h.committing i;
  lh = h.lh i;
  view = m.view;
  disk = m.disk;
  past = m.past;
}

module _ (l : Log) (r : IsReady l) where
  start_ne : (b : ℕ) → IsHome l.start l.size b → l.start ≢ b
  start_ne b h e = home_ne_log 0 h (omega (arith, r.logged.fits)) (omega arith)

  -- the header is written empty
  stage4 :
      (v d : Disk) (x : List Disk)
      → Stage3 l r v d x
      → DidCommit l (write_head (clear (at l r v d x)))
  unfolding write_head write_block
  stage4 v d x s =
      let hb = write_entries l.lh.block 0 0 (update (v l.start) 0 0) in
      let header : update d l.start hb l.start 0 ≡ 0 =
        ap (λ (x : Block). x 0) (update_self d l.start hb)
        ∙ write_entries_frame l.lh.block 0 0 (update (v l.start) 0 0) 0 (omega arith)
        ∙ update_self (v l.start) 0 0 in
      let homes = λ (b : ℕ) (h : IsHome l.start l.size b).
        update_ne d l.start b hb (start_ne b h) ∙ s.home_disk b h in
      record {
        start = refl;
        size = refl;
        emptied = refl;
        header = header;
        on_disk = homes;
        in_cache = λ b h. update_ne v l.start b hb (start_ne b h) ∙ s.home_view b h;
        atomic = (
          inr (λ b h.
              initlog_empty _ l.start l.size b (omega (arith, r.logged.fits)) header h ∙ homes b h),
          (IsNew-IsAtomic l r d s.new, s.past),
        );
      }

  abbrev write_all : Log → Log
  write_all m = write_head (clear (install_trans (write_head m)))

  commit_some : All (IsAtomic l) l.past → DidCommit l (write_all (write_log l))
  unfolding write_log install_trans write_head write_block
  commit_some q =
      let m1 = write_log l in
      let m2 = write_head (at l r m1.view m1.disk m1.past) in
      let m3 = install_trans (at l r m2.view m2.disk m2.past) in
      let s3 = stage3 l r _ _ _ (stage2 l r _ _ _ (stage1 l r q)) in
      let e1 = ap write_all (shape (write_log-SameLog l.lh.n 0 l)) in
      let e3 =
        ap (λ m. write_head (clear m))
          (shape (install-SameLog l.lh.n 0 (at l r m2.view m2.disk m2.past))) in
      subst (DidCommit l) (sym (e1 ∙ e3)) (stage4 m3.view m3.disk m3.past s3)

  commit_none : All (IsAtomic l) l.past → l.lh.n ≡ 0 → DidCommit l l
  commit_none q e =
      let homes =
        λ (b : ℕ) (h : IsHome l.start l.size b). r.clean b h (λ j lt. absurd (omega arith)) in
      record {
        start = refl;
        size = refl;
        emptied = e;
        header = r.empty;
        on_disk = λ b h. sym (homes b h);
        in_cache = λ b h. refl;
        atomic = (
          inl (λ b h.
              initlog_empty l.disk l.start l.size b (omega (arith, r.logged.fits)) r.empty h),
          q,
        );
      }

-- A commit of a log that is ready: every state that the disk passes through, at each write of a
-- block and at the end, is one from which recovery restores either all homes as they were on the
-- disk before the commit or all homes as the cache showed them, never a mixture; and at the end
-- disk and cache hold the new contents and the header, on disk and in memory, is empty.
pub commit_atomic : (l : Log) → IsReady l → l.past ≡ [] → DidCommit l (commit l)
unfolding commit
commit_atomic l r e = elim (Bool-cases (ltb 0 l.lh.n)) [
  | inl some_entries ↦ rw some_entries (commit_some l r (rw e tt))
  | inr no_entries ↦ rw no_entries (commit_none l r (rw e tt) (ground arith))
]
