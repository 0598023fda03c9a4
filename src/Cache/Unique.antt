-- ===== src/Cache/Unique.antt =====
-- The invariant of the buffer cache: keys, reference counts and flags.
use cs.Base.{
  ℕ, ◌+◌, ◌^◌, ◌<◌, ◌≤◌, ◌≡◌, ◌≢◌, ◌⊎◌, inl, inr, ap, sym, ◌∙◌, Bool, true, false, List, [], ◌∷◌,
  ◌++◌, arith, ◌==◌, update, update_cases, All, length,
}
use cs.Cache.{nbuf, Data, Buf, link_from}
use cs.Cache.Order.{occurs}
use cs.Cache.Steps.{Wait, World}

abbrev pub bit : Bool → ℕ
bit true = 1
bit false = 0

-- How many refer to the buffer without its lock.
unfoldable pub waiters : ℕ → List Wait → ℕ
waiters i [] = 0
waiters i (a ∷ ws) = bit (i == a.place) + waiters i ws

-- A buffer: its reference count is that of the processes that have its lock, wait for it or are about to drop it; valid
-- contents are what was last written; a dirty buffer is valid; and one that is in use is for a device.
pub record Fine (view : ℕ → Data) (n : ℕ) (b : Buf) : Type 0 where
  pub counted : b.refcnt ≡ n + bit b.lock.locked
  pub current : b.valid ≡ true → (b.dev ≡ 1) × (b.contents ≡ view b.blockno)
  pub backed : b.dirty ≡ true → b.valid ≡ true
  pub used : b.refcnt ≢ 0 → b.dev ≢ 0

-- The buffer is still for the block that was asked for.
abbrev pub IsAsked : (ℕ → Buf) → Wait → Type 0
IsAsked buf a = ((buf a.place).dev ≡ a.dev) × ((buf a.place).blockno ≡ a.blockno) × (a.dev ≢ 0)

abbrev pub SameKey : Buf → Buf → Type 0
SameKey a b = (a.dev ≡ b.dev) × (a.blockno ≡ b.blockno)

-- Two buffers are for the same block only if neither was ever used.
abbrev pub Unique : (ℕ → Buf) → Type 0
Unique buf = (i j : ℕ) → i ≢ j → SameKey (buf i) (buf j) → (buf i).dev ≡ 0

-- No buffer has contents for block `n` that the disk does not have.
abbrev pub NotDirty : (ℕ → Buf) → ℕ → Type 0
NotDirty buf n = (i : ℕ) → (buf i).dirty ≡ true → (buf i).blockno ≢ n

abbrev pub Clean : (ℕ → Buf) → (ℕ → Data) → (ℕ → Data) → Type 0
Clean buf disk view = (n : ℕ) → NotDirty buf n → disk n ≡ view n

-- Each of the `nbuf` buffers stands in the list once; the rest is as the comments above say, for all
-- buffers.
pub record IsCoherent (w : World) : Type 0 where
  pub ordered : (i : ℕ) → occurs i w.cache.order ≡ occurs i (link_from nbuf 0 [])
  pub outside : (i : ℕ) → occurs i w.cache.order ≡ 0 → (w.cache.buf i).dev ≡ 0
  pub unique : Unique w.cache.buf
  pub fine : (i : ℕ) → Fine w.view (waiters i w.waiting) (w.cache.buf i)
  pub clean : Clean w.cache.buf w.cache.disk w.view
  pub asked : All (IsAsked w.cache.buf) w.waiting
  pub few : length w.waiting + 1 < 2 ^ 32

pub waiters-le : (i : ℕ) (ws : List Wait) → waiters i ws ≤ length ws
unfolding waiters
waiters-le i [] = omega arith
waiters-le i (a ∷ ws) = let ih = waiters-le i ws in ground arith

pub waiters-append :
    (i : ℕ) (ws bs : List Wait) → waiters i (ws ++ bs) ≡ waiters i ws + waiters i bs
unfolding waiters
waiters-append i [] bs = omega arith
waiters-append i (a ∷ ws) bs = omega (arith, waiters-append i ws bs)

-- A new block for a buffer that no one waits for, or the same block for any buffer.
pub All-IsAsked :
    (buf : ℕ → Buf) (i : ℕ) (b : Buf) (ws : List Wait)
    → (waiters i ws ≡ 0) ⊎ SameKey b (buf i)
    → All (IsAsked buf) ws
    → All (IsAsked (update buf i b)) ws
unfolding waiters
All-IsAsked buf i b [] h all = tt
All-IsAsked buf i b (a ∷ ws) (inl h) all =
    let rest = All-IsAsked buf i b ws (inl (omega arith)) all.1 in
    (
      update_cases (λ (q : Buf). (q.dev ≡ a.dev) × (q.blockno ≡ a.blockno) × (a.dev ≢ 0)) buf i b
          a.place (λ e. absurd (ground arith)) (λ _. all.0),
      rest,
    )
All-IsAsked buf i b (a ∷ ws) (inr (kd, kb)) all =
    let rest = All-IsAsked buf i b ws (inr (kd, kb)) all.1 in
    let at : IsAsked buf a = all.0 in
    (
      update_cases (λ (q : Buf). (q.dev ≡ a.dev) × (q.blockno ≡ a.blockno) × (a.dev ≢ 0)) buf i b
          a.place
          (λ e.
            let e' = ap buf e in
            (
              kd ∙ ap (λ (q : Buf). q.dev) e' ∙ at.0,
              kb ∙ ap (λ (q : Buf). q.blockno) e' ∙ at.1,
              at.2,
            ))
          (λ _. at),
      rest,
    )

-- The same, for uniqueness: `b` takes the place of a buffer, with the same block or one that no
-- other buffer is for.
pub update-Unique :
    (buf : ℕ → Buf) (i : ℕ) (b : Buf)
    → Unique buf
    → ((j : ℕ) → i ≢ j → SameKey b (buf j) → b.dev ≡ 0)
    → Unique (update buf i b)
update-Unique buf i b u h j k ne =
    update_cases (λ (q : Buf). SameKey q (update buf i b k) → q.dev ≡ 0) buf i b j
      (λ e.
        update_cases (λ (r : Buf). SameKey b r → b.dev ≡ 0) buf i b k
          (λ e'. absurd (ne (sym e ∙ e'))) (λ ne' same. h k ne' same))
      (λ ne'.
        update_cases (λ (r : Buf). SameKey (buf j) r → (buf j).dev ≡ 0) buf i b k
          (λ e' same. same.0 ∙ h j ne' (sym same.0, sym same.1)) (λ _ same. u j k ne same))
