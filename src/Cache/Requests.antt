-- ===== src/Cache/Requests.antt =====
-- `bget` keeps the invariant.
use cs.Base.{
  ℕ, ◌+◌, ◌%◌, ◌^◌, ◌<◌, ◌≡◌, ◌≢◌, inl, refl, ap, sym, ◌∙◌, true, false, ◌∷◌, none, arith, update,
  update_cases, update_self, length, ℕ_discrete, subst,
}
use cs.Cache.{Buf, set_buf, is_for, is_free, find_cached}
use cs.Cache.Order.{occurs, find_cached-none}
use cs.Cache.Steps.{Wait, World}
use cs.Cache.Unique.{waiters, waiters-le, Fine, IsCoherent, All-IsAsked, update-Unique}
use cs.Cache.Change.{change_lem, kept-Clean}

-- `bget` of a block that is cached.
pub hit-IsCoherent :
    (w : World) (who d n i : ℕ)
    → IsCoherent w
    → d ≢ 0
    → length w.waiting + 2 < 2 ^ 32
    → is_for d n (w.cache.buf i) ≡ true
    → IsCoherent (record w {
      cache =
          set_buf w.cache i
            (record (w.cache.buf i) { refcnt = ((w.cache.buf i).refcnt + 1) % 2 ^ 32 });
      waiting = record { who = who; place = i; dev = d; blockno = n; leaving = false } ∷ w.waiting;
    })
unfolding waiters
hit-IsCoherent w who d n i s nz few hit =
    let buf = w.cache.buf in
    let b = record (buf i) { refcnt = ((buf i).refcnt + 1) % 2 ^ 32 } in
    let a : Wait = record { who = who; place = i; dev = d; blockno = n; leaving = false } in
    let counted = (s.fine i).counted in
    let le = waiters-le i w.waiting in
    change_lem w i b w.cache.order w.cache.disk w.view (a ∷ w.waiting) s (refl, refl) (λ k. refl)
      ((ground arith, ground arith, nz), s.asked) (omega arith)
      (λ j ne.
        let here : waiters j (a ∷ w.waiting) ≡ waiters j w.waiting = ground arith in
        subst (λ x. Fine w.view x (buf j)) (sym here) (s.fine j))
      (record {
        counted = ground arith;
        current = (s.fine i).current;
        backed = (s.fine i).backed;
        used = λ _ z. nz (ground arith);
      })
      (kept-Clean buf i b w.cache.disk w.view s.clean (λ e. (e, refl)))

-- `bget` of a block that is not, into a buffer that is free.
pub recycle-IsCoherent :
    (w : World) (who d n i : ℕ)
    → IsCoherent w
    → d ≢ 0
    → length w.waiting + 2 < 2 ^ 32
    → find_cached d n w.cache.buf w.cache.order ≡ none
    → is_free (w.cache.buf i) ≡ true
    → occurs i w.cache.order ≢ 0
    → IsCoherent (record w {
      cache = set_buf w.cache i (record (w.cache.buf i) {
        dev = d;
        blockno = n;
        valid = false;
        dirty = false;
        refcnt = 1;
      });
      waiting = record { who = who; place = i; dev = d; blockno = n; leaving = false } ∷ w.waiting;
    })
unfolding waiters
recycle-IsCoherent w who d n i s nz few miss free here =
    let buf = w.cache.buf in
    let b = record (buf i) { dev = d; blockno = n; valid = false; dirty = false; refcnt = 1 } in
    let a : Wait = record { who = who; place = i; dev = d; blockno = n; leaving = false } in
    let counted = (s.fine i).counted in
    let none_yet : waiters i w.waiting ≡ 0 = ground arith in
    let clean_yet : (buf i).dirty ≡ false = ground arith in
    let at_i : update buf i b i ≡ b = update_self buf i b in
    record {
      ordered = s.ordered;
      outside = λ k z.
          update_cases (λ (q : Buf). q.dev ≡ 0) buf i b k
            (λ e. absurd (here (ap (λ x. occurs x w.cache.order) e ∙ z))) (λ _. s.outside k z);
      unique = update-Unique buf i b s.unique (λ j ne e.
          elim (ℕ_discrete (occurs j w.cache.order) 0) [
            | yes z ↦ e.0 ∙ s.outside j z
            | no nz' ↦
                let other = find_cached-none d n buf w.cache.order j miss nz' in
                let e0 : d ≡ (buf j).dev = e.0 in
                let e1 : n ≡ (buf j).blockno = e.1 in absurd (ground arith)
          ]);
      fine = λ j.
          update_cases (λ (q : Buf). Fine w.view (waiters j (a ∷ w.waiting)) q) buf i b j
            (λ e.
              subst (λ x. Fine w.view (waiters x (a ∷ w.waiting)) b) e
                (record {
                  counted = ground arith;
                  current = λ v. cc;
                  backed = λ v. cc;
                  used = λ _ z. nz z;
                }))
            (λ ne.
              let same : waiters j (a ∷ w.waiting) ≡ waiters j w.waiting = ground arith in
              subst (λ x. Fine w.view x (buf j)) (sym same) (s.fine j));
      clean = kept-Clean buf i b w.cache.disk w.view s.clean (λ e. cc);
      asked = (
        (ap (λ (q : Buf). q.dev) at_i, ap (λ (q : Buf). q.blockno) at_i, nz),
        All-IsAsked buf i b w.waiting (inl none_yet) s.asked,
      );
      few = omega arith;
    }
