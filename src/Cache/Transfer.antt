-- ===== src/Cache/Transfer.antt =====
-- Reading, writing and logging a block keep the invariant.
use cs.Base.{
  ℕ, ◌+◌, ◌≡◌, ◌≢◌, inl, inr, refl, ap, sym, ◌∙◌, Bool, true, false, ◌&&◌, not, arith,
  if◌then◌else◌, Bool-cases, update, update_self, update_ne, ℕ_discrete, subst, ok, panic, Ensures,
  Ensures_ok, Ensures-weaken,
}
use cs.Cache.{
  Data, Sleeplock, Buf, Bcache, set_buf, holdingsleep, bread_rest, iderw, bwrite, read_in,
  write_out,
}
use cs.Cache.Steps.{World, with_data}
use cs.Cache.Unique.{bit, waiters, SameKey, NotDirty, Clean, IsCoherent}
use cs.Cache.Change.{update_twice, change_lem, kept-Clean, valid_only}

-- A change under the lock of a buffer, of its contents and flags, while what is waited for stays.
pub data_change-IsCoherent :
    (w : World) (i : ℕ) (b : Buf) (disk view : ℕ → Data)
    → IsCoherent w
    → SameKey b (w.cache.buf i)
    → b.refcnt ≡ (w.cache.buf i).refcnt
    → b.lock ≡ (w.cache.buf i).lock
    → b.valid ≡ true
    → b.dev ≡ 1
    → b.contents ≡ view b.blockno
    → ((n : ℕ) → n ≢ b.blockno → view n ≡ w.view n)
    → Clean (update w.cache.buf i b) disk view
    → IsCoherent (record w {
      cache = record w.cache { buf = update w.cache.buf i b; disk = disk };
      view = view;
    })
data_change-IsCoherent w i b disk view s key rc lk v dev now views clean =
    let buf = w.cache.buf in
    change_lem w i b w.cache.order disk view w.waiting s key (λ k. refl) s.asked s.few
      (λ j ne.
        let f = s.fine j in
        record {
          counted = f.counted;
          current = λ vj.
              let away : (buf j).blockno ≢ b.blockno =
                λ e. valid_only w i j s ne (sym key.0 ∙ dev) vj (e ∙ key.1) in
              let was = f.current vj in (was.0, was.1 ∙ sym (views (buf j).blockno away));
          backed = f.backed;
          used = f.used;
        })
      (record {
        counted =
            rc
            ∙ (s.fine i).counted
            ∙ ap (λ (l : Sleeplock). waiters i w.waiting + bit l.locked) (sym lk);
        current = λ _. (dev, now);
        backed = λ _. v;
        used = λ _ z. omega (arith, dev, z);
      })
      clean

-- What `iderw` checks and does.
pub iderw_lem :
    (who i : ℕ) (c : Bcache)
    → Ensures
        (λ u.
          ((c.buf i).dev ≡ 1)
          × (((c.buf i).valid && not (c.buf i).dirty) ≡ false)
          × (u ≡ (if (c.buf i).dirty then write_out i c else read_in i c)))
        (iderw who i c)
unfolding iderw
iderw_lem who i c =
    let b = c.buf i in
    elim (Bool-cases b.dirty) [
      | inl e ↦ elim (Bool-cases b.valid) [
        | inl v ↦ simp (e, v) (ground arith)
        | inr v ↦ simp (e, v) (ground arith)
      ]
      | inr e ↦ elim (Bool-cases b.valid) [
        | inl v ↦ simp (e, v) (ground arith)
        | inr v ↦ simp (e, v) (ground arith)
      ]
    ]

if_true : {A : Type 0} (b : Bool) (x y : A) → b ≡ true → (if b then x else y) ≡ x
if_true b x y e = rw e refl

if_false : {A : Type 0} (b : Bool) (x y : A) → b ≡ false → (if b then x else y) ≡ y
if_false b x y e = rw e refl

pub reads-IsCoherent :
    (w : World) (who i : ℕ) (c : Bcache)
    → IsCoherent w
    → bread_rest who i w.cache ≡ ok c
    → IsCoherent (record w { cache = c })
reads-IsCoherent w who i c s h =
    let b = w.cache.buf i in
    elim (Bool-cases b.valid) [
      | inl v ↦
          let same : ok w.cache ≡ ok c = simp v at h in
          let eq : w.cache ≡ c = cc in subst (λ x. IsCoherent (record w { cache = x })) eq s
      | inr v ↦
          let did : iderw who i w.cache ≡ ok c = simp v at h in
          let got = Ensures_ok _ (iderw who i w.cache) c (iderw_lem who i w.cache) did in
          let clean_i : b.dirty ≡ false = not_dirty w i s v in
          let eq : c ≡ read_in i w.cache =
            got.2 ∙ if_false b.dirty (write_out i w.cache) (read_in i w.cache) clean_i in
          subst (λ x. IsCoherent (record w { cache = x })) (sym eq)
            (read_in-IsCoherent w i s v clean_i got.0)
    ]
  where
    not_dirty :
        (w : World) (i : ℕ)
        → IsCoherent w
        → (w.cache.buf i).valid ≡ false
        → (w.cache.buf i).dirty ≡ false
    not_dirty w i s v = elim (Bool-cases (w.cache.buf i).dirty) [
      | inl d ↦ let yes_valid = (s.fine i).backed d in cc
      | inr d ↦ d
    ]

    read_in-IsCoherent :
        (w : World) (i : ℕ)
        → IsCoherent w
        → (w.cache.buf i).valid ≡ false
        → (w.cache.buf i).dirty ≡ false
        → (w.cache.buf i).dev ≡ 1
        → IsCoherent (record w { cache = read_in i w.cache })
    read_in-IsCoherent w i s v clean_i dev =
        let b = w.cache.buf i in
        let now : w.cache.disk b.blockno ≡ w.view b.blockno = s.clean b.blockno (λ j dj.
          elim (ℕ_discrete i j) [
            | yes e ↦ let no = ap (λ x. (w.cache.buf x).dirty) e in cc
            | no ne ↦ valid_only w i j s ne dev ((s.fine j).backed dj)
          ]) in
        let b' = record b { contents = w.cache.disk b.blockno; valid = true } in
        data_change-IsCoherent w i b' w.cache.disk w.view s (refl, refl) refl refl refl dev now
          (λ n _. refl) (kept-Clean w.cache.buf i b' w.cache.disk w.view s.clean (λ e. (e, refl)))

-- A buffer that is written out.
iderw-write :
    (who i : ℕ) (c : Bcache) (b : Buf)
    → b.dirty ≡ true
    → Ensures
        (λ u.
          (b.dev ≡ 1)
          × (u ≡ record c {
            disk = update c.disk b.blockno b.contents;
            buf = update c.buf i (record b { dirty = false; valid = true });
          }))
        (iderw who i (set_buf c i b))
iderw-write who i c b d =
    Ensures-weaken _ _ (iderw who i (set_buf c i b))
      (λ u h.
        let at =
          subst
            (λ (q : Buf).
              (q.dev ≡ 1)
              × ((q.valid && not q.dirty) ≡ false)
              × (u ≡ (
                  if q.dirty
                  then record c {
                    disk = update c.disk q.blockno q.contents;
                    buf = update (update c.buf i b) i (record q { dirty = false; valid = true });
                  }
                  else set_buf (set_buf c i b) i
                      (record q { contents = c.disk q.blockno; valid = true }))))
            (update_self c.buf i b) h in
        let out = record b { dirty = false; valid = true } in
        let disk = update c.disk b.blockno b.contents in
        (
          at.0,
          at.2
              ∙ if_true b.dirty (record c { disk = disk; buf = update (update c.buf i b) i out })
                  (set_buf (set_buf c i b) i
                    (record b { contents = c.disk b.blockno; valid = true }))
                  d
              ∙ ap (λ f. record c { disk = disk; buf = f }) (update_twice c.buf i b out),
        ))
      (iderw_lem who i (set_buf c i b))

other_block :
    (buf : ℕ → Buf) (i n : ℕ) (b : Buf)
    → (buf i).blockno ≢ n
    → NotDirty (update buf i b) n
    → NotDirty buf n
other_block buf i n b ne nd j dj at = elim (ℕ_discrete i j) [
  | yes e ↦ ne (ap (λ x. (buf x).blockno) e ∙ at)
  | no ne' ↦
      let same : update buf i b j ≡ buf j = update_ne buf i j b ne' in
      nd j (ap (λ (q : Buf). q.dirty) same ∙ dj) (ap (λ (q : Buf). q.blockno) same ∙ at)
]

written-IsCoherent :
    (w : World) (i : ℕ) (v : Data)
    → IsCoherent w
    → (w.cache.buf i).dev ≡ 1
    → IsCoherent (record w {
      cache = record w.cache {
        buf =
            update w.cache.buf i
              (record (w.cache.buf i) { contents = v; dirty = false; valid = true });
        disk = update w.cache.disk (w.cache.buf i).blockno v;
      };
      view = update w.view (w.cache.buf i).blockno v;
    })
written-IsCoherent w i v s dev =
    let buf = w.cache.buf in
    let bn = (buf i).blockno in
    let out = record (buf i) { contents = v; dirty = false; valid = true } in
    data_change-IsCoherent w i out (update w.cache.disk bn v) (update w.view bn v) s (refl, refl)
      refl refl refl dev (sym (update_self w.view bn v))
      (λ n ne. update_ne w.view bn n v (λ e. ne (sym e)))
      (λ n nd. elim (ℕ_discrete bn n) [
        | yes e ↦
            subst (λ x. update w.cache.disk bn v x ≡ update w.view bn v x) e
              (update_self w.cache.disk bn v ∙ sym (update_self w.view bn v))
        | no ne ↦
            update_ne w.cache.disk bn n v ne
            ∙ s.clean n (other_block buf i n out ne nd)
            ∙ sym (update_ne w.view bn n v ne)
      ])

-- The buffer gets new contents and is marked dirty.
pub logs-IsCoherent :
    (w : World) (i : ℕ) (v : Data)
    → IsCoherent w
    → (w.cache.buf i).valid ≡ true
    → IsCoherent (record w {
      cache = set_buf w.cache i (record (w.cache.buf i) { contents = v; dirty = true });
      view = update w.view (w.cache.buf i).blockno v;
    })
logs-IsCoherent w i v s valid =
    let buf = w.cache.buf in
    let bn = (buf i).blockno in
    let marked = record (buf i) { contents = v; dirty = true } in
    let at_i : update buf i marked i ≡ marked = update_self buf i marked in
    data_change-IsCoherent w i marked w.cache.disk (update w.view bn v) s (refl, refl) refl refl
      valid ((s.fine i).current valid).0 (sym (update_self w.view bn v))
      (λ n ne. update_ne w.view bn n v (λ e. ne (sym e)))
      (λ n nd. elim (ℕ_discrete bn n) [
        | yes e ↦
            absurd (nd i (ap (λ (q : Buf). q.dirty) at_i) (ap (λ (q : Buf). q.blockno) at_i ∙ e))
        | no ne ↦ s.clean n (other_block buf i n marked ne nd) ∙ sym (update_ne w.view bn n v ne)
      ])

-- The buffer gets new contents, and these are written out.
pub writes-IsCoherent :
    (w : World) (who i : ℕ) (v : Data) (c : Bcache)
    → IsCoherent w
    → (w.cache.buf i).valid ≡ true
    → bwrite who i (with_data w.cache i v) ≡ ok c
    → IsCoherent (record w { cache = c; view = update w.view (w.cache.buf i).blockno v })
unfolding bwrite
writes-IsCoherent w who i v c s valid h =
    let buf = w.cache.buf in
    let b = buf i in
    let new = record b { contents = v } in
    let marked = record b { contents = v; dirty = true } in
    let c1 = with_data w.cache i v in
    let mark : set_buf c1 i (record (c1.buf i) { dirty = true }) ≡ set_buf w.cache i marked =
      ap (λ (q : Buf). set_buf c1 i (record q { dirty = true })) (update_self buf i new)
      ∙ ap (λ f. record w.cache { buf = f }) (update_twice buf i new marked) in
    elim (Bool-cases (holdingsleep who (c1.buf i).lock)) [
      | inr free ↦ let bad : panic ≡ ok c = simp free at h in cc
      | inl holds ↦
          let did : iderw who i (set_buf c1 i (record (c1.buf i) { dirty = true })) ≡ ok c =
            simp holds at h in
          let did' : iderw who i (set_buf w.cache i marked) ≡ ok c =
            ap (iderw who i) (sym mark) ∙ did in
          let got = Ensures_ok _ _ c (iderw-write who i w.cache marked refl) did' in
          subst (λ x. IsCoherent (record w { cache = x; view = update w.view b.blockno v }))
            (sym got.1) (written-IsCoherent w i v s got.0)
    ]
