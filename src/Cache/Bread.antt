-- ===== src/Cache/Bread.antt =====
-- What a process gets from `bget` and `bread`.
use cs.Base.{
  ℕ, ◌≡◌, ◌≢◌, ◌↔◌, ◌<◌, inl, inr, refl, ap, sym, ◌∙◌, true, false, List, ◌∷◌, ◌++◌, none, some,
  arith, if◌then◌else◌, Bool-cases, Option-cases, update_self, All, subst, ok, panic, Ensures,
  Ensures_ok, Ensures-weaken,
}
use cs.Cache.{
  Sleeplock, Buf, Bcache, set_buf, is_for, is_free, find_cached, find_free, acquiresleep,
  holdingsleep, bget, bread_rest, iderw, read_in, write_out,
}
use cs.Cache.Order.{occurs, find_cached-none, find_cached-some, find_free-none, find_free-some}
use cs.Cache.Unique.{IsAsked, SameKey}
use cs.Cache.Steps.{Wait, World, Step, Reach}
use cs.Cache.Transfer.{iderw_lem}
use cs.Cache.Coherent.{All-middle, Reach-IsCoherent}

-- The second half of `bread` makes the buffer valid and keeps its block and its lock.
bread_rest_lem :
    (who i : ℕ) (c : Bcache)
    → Ensures
        (λ u.
          ((u.buf i).valid ≡ true)
          × SameKey (u.buf i) (c.buf i)
          × ((u.buf i).lock ≡ (c.buf i).lock))
        (bread_rest who i c)
bread_rest_lem who i c =
    let b = c.buf i in
    elim (Bool-cases b.valid) [
      | inl v ↦ simp v (refl, (refl, refl), refl)
      | inr v ↦
          simp v
            (Ensures-weaken _ _ (iderw who i c) (λ u h. moved who i c u h.2) (iderw_lem who i c))
    ]
  where
    moved :
        (who i : ℕ) (c u : Bcache)
        → u ≡ (if (c.buf i).dirty then write_out i c else read_in i c)
        → ((u.buf i).valid ≡ true) × SameKey (u.buf i) (c.buf i) × ((u.buf i).lock ≡ (c.buf i).lock)
    moved who i c u e =
        let b = c.buf i in
        subst
          (λ (x : Bcache).
            ((x.buf i).valid ≡ true) × SameKey (x.buf i) b × ((x.buf i).lock ≡ b.lock))
          (sym e)
          (elim (Bool-cases b.dirty) [
            | inl d ↦ simp d (
                simp (update_self c.buf i (record b { dirty = false; valid = true }))
                  (refl, (refl, refl), refl))
            | inr d ↦ simp d (
                simp
                  (update_self c.buf i
                    (record b { dirty = false; valid = true; contents = c.disk b.blockno }))
                  (refl, (refl, refl), refl))
          ])

bread_rest-ok :
    (who i : ℕ) (c : Bcache)
    → holdingsleep who (c.buf i).lock ≡ true
    → (c.buf i).dev ≡ 1
    → (c.buf i).blockno < c.disksize
    → (u : Bcache) × (bread_rest who i c ≡ ok u)
unfolding iderw
bread_rest-ok who i c holds dev near =
    let b = c.buf i in
    elim (Bool-cases b.valid) [
      | inl v ↦ simp v (c, refl)
      | inr v ↦ elim (Bool-cases b.dirty) [
        | inl e ↦ (write_out i c, ground arith)
        | inr e ↦ (read_in i c, ground arith)
      ]
    ]

never : {A : Type 0} {a : A} → ok a ≡ panic → ⊥
never e = cc

-- `bget` panics exactly if no buffer in the list is for the block and each is referred to or dirty.
pub bget-panic_iff :
    (d n : ℕ) (c : Bcache)
    → (bget d n c ≡ panic) ↔ (
        (i : ℕ)
        → occurs i c.order ≢ 0
        → (is_for d n (c.buf i) ≡ false) × (is_free (c.buf i) ≡ false))
bget-panic_iff d n c = (
  λ p i o. elim (Option-cases (find_cached d n c.buf c.order)) [
    | inr (j, e) ↦ let bad = simp e at p in absurd (never bad)
    | inl e ↦ elim (Option-cases (find_free c.buf c.order)) [
      | inr (j, f) ↦ let bad = simp (e, f) at p in absurd (never bad)
      | inl f ↦ (find_cached-none d n c.buf c.order i e o, find_free-none c.buf c.order i f o)
    ]
  ],
  λ all. elim (Option-cases (find_cached d n c.buf c.order)) [
    | inr (j, e) ↦
        let at = find_cached-some d n c.buf c.order j e in
        let no_hit = (all j at.1).0 in let hit = at.0 in cc
    | inl e ↦ elim (Option-cases (find_free c.buf c.order)) [
      | inr (j, f) ↦
          let at = find_free-some c.buf c.order j f in
          let used = (all j at.1).1 in let free = at.0 in cc
      | inl f ↦ simp (e, f) refl
    ]
  ],
)

acquired-holds :
    (who : ℕ) (l lk : Sleeplock) → acquiresleep who l ≡ some lk → holdingsleep who lk ≡ true
acquired-holds who l lk got = elim (Bool-cases l.locked) [
  | inl e ↦ let no_lock : none ≡ some lk = rw e at got in cc
  | inr e ↦
      let same : some (record { locked = true; pid = who }) ≡ some lk = rw e at got in
      let eq : record { locked = true; pid = who } ≡ lk = cc in
      subst (λ x. holdingsleep who x ≡ true) eq (ground arith)
]

abbrev pub lock_buf : Bcache → ℕ → Sleeplock → Bcache
lock_buf c i lk = set_buf c i (record (c.buf i) { lock = lk })

-- What `bread` promises of the buffer.
pub record IsBread (w : World) (a : Wait) (b : Buf) : Type 0 where
  pub held : holdingsleep a.who b.lock ≡ true
  pub valid : b.valid ≡ true
  pub dev : b.dev ≡ a.dev
  pub blockno : b.blockno ≡ a.blockno
  pub contents : b.contents ≡ w.view a.blockno

-- From any state that is reached: when a process that waits in `bget`, for a block of disk 1 in
-- range, gets the lock of its buffer, the rest of `bread` returns; then the process holds the lock of
-- a valid buffer for the block that it asked for, whose contents are what was last written to it.
pub Reach-IsBread :
    {w : World} (before after : List Wait) (a : Wait) (lk : Sleeplock)
    → Reach w
    → w.waiting ≡ before ++ (a ∷ after)
    → a.leaving ≡ false
    → acquiresleep a.who (w.cache.buf a.place).lock ≡ some lk
    → a.dev ≡ 1
    → a.blockno < w.cache.disksize
    → (c : Bcache) × (bread_rest a.who a.place (lock_buf w.cache a.place lk) ≡ ok c)
      × IsBread w a (c.buf a.place)
Reach-IsBread {w} before after a lk r at stays got dev1 near =
    let buf = w.cache.buf in
    let i = a.place in
    let locked = record (buf i) { lock = lk } in
    let c1 = lock_buf w.cache i lk in
    let r1 = Reach.then_step r (Step.locks before after a lk at stays got) in
    let all : All (IsAsked buf) (before ++ (a ∷ after)) = rw at at (Reach-IsCoherent r).asked in
    let asked = (All-middle (IsAsked buf) before after a all).0 in
    let at_i : c1.buf i ≡ locked = update_self buf i locked in
    let holds : holdingsleep a.who (c1.buf i).lock ≡ true =
      ap (λ (q : Buf). holdingsleep a.who q.lock) at_i ∙ acquired-holds a.who (buf i).lock lk got in
    let key1 = ap (λ (q : Buf). q.dev) at_i ∙ asked.0 in
    let key2 = ap (λ (q : Buf). q.blockno) at_i ∙ asked.1 in
    let out =
      bread_rest-ok a.who i c1 holds (key1 ∙ dev1)
        (subst (λ x. x < w.cache.disksize) (sym key2) near) in
    let c = out.0 in
    let r2 = Reach.then_step r1 (Step.reads a.who i c out.1) in
    let h = Ensures_ok _ (bread_rest a.who i c1) c (bread_rest_lem a.who i c1) out.1 in
    let now = ((Reach-IsCoherent r2).fine i).current h.0 in
    let block : (c.buf i).blockno ≡ a.blockno = h.1.1 ∙ key2 in
    (
      c,
      out.1,
      record {
        held = ap (holdingsleep a.who) h.2 ∙ holds;
        valid = h.0;
        dev = h.1.0 ∙ key1;
        blockno = block;
        contents = now.1 ∙ ap w.view block;
      },
    )
