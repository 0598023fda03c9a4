-- ===== src/Kalloc/Owners.antt =====
-- Who owns which page, over any sequence of `kalloc` and `kfree`.
use cs.Base.{
  ℕ, zero, suc, ◌%◌, ◌≡◌, ◌≢◌, inl, inr, refl, ap, sym, ◌∙◌, Bool, true, false, List, [], ◌∷◌, ◌==◌,
  if◌then◌else◌, Bool-cases, arith, ℕ_discrete, update, update_ne, update_self, ok, subst, All,
}
use cs.Kalloc.{Kmem, pgsize, kfree, kalloc}
use cs.Kalloc.Chain.{IsIn, IsChain, kfree_lem}

-- `own p` where the page `p` is not on the free list.
abbrev pub give : (ℕ → Bool) → ℕ → ℕ → Bool
give own p = if p == 0 then own else update own p true

pub record IsSound (k : Kmem) (own : ℕ → Bool) : Type 0 where
  pub pages : List ℕ
  pub chain : IsChain k.mem k.freelist pages
  pub free : All (λ q. own q ≡ false) pages
  pub complete : (p : ℕ) → own p ≡ false → IsIn p pages

-- From an empty list and with every page in use, pages are allocated, and freed by an owner.
pub data Reach (end : ℕ) : Kmem → (ℕ → Bool) → Type 0 where
  begins : {mem : ℕ → ℕ} → Reach end (record { freelist = 0; mem = mem }) (λ p. true)
  allocates :
      {k : Kmem} {own : ℕ → Bool} → Reach end k own → Reach end (kalloc k).0 (give own (kalloc k).1)
  frees :
      (v : ℕ) {k l : Kmem} {own : ℕ → Bool}
      → Reach end k own
      → own v ≡ true
      → kfree end v k ≡ ok l
      → Reach end l (update own v false)

owned_apart :
    (own : ℕ → Bool) (v : ℕ) (qs : List ℕ)
    → own v ≡ true
    → All (λ q. own q ≡ false) qs
    → All (λ q. v ≢ q) qs
owned_apart own v [] h f = f
owned_apart own v (q ∷ qs) h (fq, f) = (λ e. let same = ap own e in cc, owned_apart own v qs h f)

still_free :
    (own : ℕ → Bool) (v : ℕ) (b : Bool) (qs : List ℕ)
    → All (λ q. v ≢ q) qs
    → All (λ q. own q ≡ false) qs
    → All (λ q. update own v b q ≡ false) qs
still_free own v b [] ne f = f
still_free own v b (q ∷ qs) (nq, ne) (fq, f) =
    (update_ne own v q b nq ∙ fq, still_free own v b qs ne f)

kfree-IsSound :
    (end v : ℕ) (k l : Kmem) (own : ℕ → Bool)
    → IsSound k own
    → own v ≡ true
    → kfree end v k ≡ ok l
    → IsSound l (update own v false)
kfree-IsSound end v k l own h o e =
    let ne = owned_apart own v h.pages o h.free in
    record {
      pages = v ∷ h.pages;
      chain = kfree_lem end v k l h.pages h.chain ne e;
      free = (update_self own v false, still_free own v false h.pages ne h.free);
      complete = λ p f. elim (ℕ_discrete p v) [
        | yes e ↦ inl e
        | no np ↦ inr (h.complete p (sym (update_ne own v p false (λ z. np (sym z))) ∙ f))
      ];
    }

kalloc_from :
    (k : Kmem) (own : ℕ → Bool) (qs : List ℕ)
    → IsChain k.mem k.freelist qs
    → All (λ q. own q ≡ false) qs
    → ((p : ℕ) → own p ≡ false → IsIn p qs)
    → IsSound (kalloc k).0 (give own (kalloc k).1)
unfolding kalloc
kalloc_from k own [] h f c =
    let none_left : (k.freelist == 0) ≡ true = ground arith in
    rw none_left (record { pages = []; chain = h; free = f; complete = c })
kalloc_from k own (q ∷ qs) (hp, nz, hq, apart, rest) (fq, f) c =
    let go : (k.freelist == 0) ≡ false = ground arith in
    let given : give own k.freelist ≡ update own k.freelist true = rw go refl in
    rw go (
      subst (IsSound (record k { freelist = k.mem k.freelist })) (sym given) (record {
        pages = qs;
        chain = rw hp rest;
        free = rw hp (still_free own q true qs apart f);
        complete = λ p e. elim (ℕ_discrete k.freelist p) [
          | yes at ↦ absurd (ground arith)
          | no away ↦
              let was = sym (update_ne own k.freelist p true away) ∙ e in
              elim (c p was) [ inl at ↦ absurd (away (hp ∙ sym at)) | inr in_rest ↦ in_rest ]
        ];
      }))

Reach-IsSound : {end : ℕ} {k : Kmem} {own : ℕ → Bool} → Reach end k own → IsSound k own
Reach-IsSound begins = record { pages = []; chain = refl; free = tt; complete = λ p e. cc }
Reach-IsSound (allocates {k} {own} r) =
    let h = Reach-IsSound r in kalloc_from k own h.pages h.chain h.free h.complete
Reach-IsSound {end} (frees v {k} {l} {own} r o e) =
    kfree-IsSound end v k l own (Reach-IsSound r) o e

-- What `kalloc` promises: a page that nobody owns, or 0 when there is none.
abbrev pub IsFreePage : (ℕ → Bool) → ℕ → Type 0
IsFreePage own zero = (p : ℕ) → own p ≡ true
IsFreePage own (suc p) = (own (suc p) ≡ false) × (suc p % pgsize ≡ 0)

head-IsFreePage :
    (own : ℕ → Bool) (p : ℕ) → p ≢ 0 → own p ≡ false → p % pgsize ≡ 0 → IsFreePage own p
head-IsFreePage own zero nz f h = absurd (nz refl)
head-IsFreePage own (suc p) nz f h = (f, h)

kalloc-IsFreePage :
    (k : Kmem) (own : ℕ → Bool) (qs : List ℕ)
    → IsChain k.mem k.freelist qs
    → All (λ q. own q ≡ false) qs
    → ((p : ℕ) → own p ≡ false → IsIn p qs)
    → IsFreePage own (kalloc k).1
unfolding kalloc
kalloc-IsFreePage k own [] h f c =
    let none_left : (k.freelist == 0) ≡ true = ground arith in
    rw none_left (λ p. elim (Bool-cases (own p)) [ inl o ↦ o | inr o ↦ absurd (c p o) ])
kalloc-IsFreePage k own (q ∷ qs) (hp, nz, hq, apart, rest) (fq, f) c =
    let go : (k.freelist == 0) ≡ false = ground arith in
    rw (go, hp) (head-IsFreePage own q nz fq hq)

-- Over any sequence of `kalloc`, and of `kfree` by owners, that starts from an empty list with every
-- page in use, `kalloc` returns an aligned page that nobody owns, and 0 only if every page is owned.
pub Reach-kalloc :
    {end : ℕ} {k : Kmem} {own : ℕ → Bool} → Reach end k own → IsFreePage own (kalloc k).1
Reach-kalloc {end} {k} {own} r =
    let h = Reach-IsSound r in kalloc-IsFreePage k own h.pages h.chain h.free h.complete
