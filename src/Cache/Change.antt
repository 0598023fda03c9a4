-- ===== src/Cache/Change.antt =====
-- The invariant after a change of one buffer.
use cs.Base.{
  ℕ, ◌+◌, ◌^◌, ◌<◌, ◌≡◌, ◌≢◌, inr, ap, sym, ◌∙◌, true, List, arith, update, update_cases,
  update_self, update_ne, All, length, ℕ_discrete, subst,
}
use cs.Cache.{Data, Buf}
use cs.Cache.Order.{occurs}
use cs.Cache.Steps.{Wait, World}
use cs.Cache.Unique.{waiters, Fine, IsAsked, SameKey, Clean, IsCoherent, All-IsAsked, update-Unique}

pub update_twice :
    {A : Type 0} (f : ℕ → A) (i : ℕ) (a b : A) → update (update f i a) i b ≡ update f i b
update_twice f i a b k j = twice j k
  where
    twice : (j : ℕ) → update (update f i a) i b j ≡ update f i b j
    twice j = ground arith

-- One buffer changes and stays for the same block.
pub change_lem :
    (w : World) (i : ℕ) (b : Buf) (o : List ℕ) (disk view : ℕ → Data) (ws : List Wait)
    → IsCoherent w
    → SameKey b (w.cache.buf i)
    → ((k : ℕ) → occurs k o ≡ occurs k w.cache.order)
    → All (IsAsked w.cache.buf) ws
    → length ws + 1 < 2 ^ 32
    → ((j : ℕ) → i ≢ j → Fine view (waiters j ws) (w.cache.buf j))
    → Fine view (waiters i ws) b
    → Clean (update w.cache.buf i b) disk view
    → IsCoherent (record {
      cache = record w.cache { buf = update w.cache.buf i b; order = o; disk = disk };
      waiting = ws;
      view = view;
    })
change_lem w i b o disk view ws s key same asked few others own clean =
    let buf = w.cache.buf in
    record {
      ordered = λ k. same k ∙ s.ordered k;
      outside = λ k z.
          update_cases (λ (q : Buf). q.dev ≡ 0) buf i b k
            (λ e. key.0 ∙ s.outside i (ap (λ x. occurs x w.cache.order) e ∙ sym (same k) ∙ z))
            (λ _. s.outside k (sym (same k) ∙ z));
      unique =
          update-Unique buf i b s.unique
            (λ j ne e. key.0 ∙ s.unique i j ne (sym key.0 ∙ e.0, sym key.1 ∙ e.1));
      fine = λ j.
          update_cases (λ (q : Buf). Fine view (waiters j ws) q) buf i b j
            (λ e. subst (λ x. Fine view (waiters x ws) b) e own) (others j);
      clean = clean;
      asked = All-IsAsked buf i b ws (inr key) asked;
      few = few;
    }

-- What no buffer holds back stays clean where the change writes nothing out.
pub kept-Clean :
    (buf : ℕ → Buf) (i : ℕ) (b : Buf) (disk view : ℕ → Data)
    → Clean buf disk view
    → ((buf i).dirty ≡ true → (b.dirty ≡ true) × (b.blockno ≡ (buf i).blockno))
    → Clean (update buf i b) disk view
kept-Clean buf i b disk view h keep n nd = h n (λ j dirty at. elim (ℕ_discrete i j) [
  | yes e ↦
      let was = keep (ap (λ x. (buf x).dirty) e ∙ dirty) in
      let now = ap (λ (q : Buf). q.dirty) (update_self buf i b) ∙ was.0 in
      nd i now (
        ap (λ (q : Buf). q.blockno) (update_self buf i b)
        ∙ was.1
        ∙ ap (λ x. (buf x).blockno) e
        ∙ at)
  | no ne ↦
      let as_was : update buf i b j ≡ buf j = update_ne buf i j b ne in
      nd j (ap (λ (q : Buf). q.dirty) as_was ∙ dirty) (ap (λ (q : Buf). q.blockno) as_was ∙ at)
])

-- A valid buffer is the only one for its block.
pub valid_only :
    (w : World) (i j : ℕ)
    → IsCoherent w
    → i ≢ j
    → (w.cache.buf i).dev ≡ 1
    → (w.cache.buf j).valid ≡ true
    → (w.cache.buf j).blockno ≢ (w.cache.buf i).blockno
valid_only w i j s ne dev v e =
    let one_dev = (s.fine j).current v in
    let zero_dev = s.unique i j ne (dev ∙ sym one_dev.0, sym e) in absurd (omega arith)
