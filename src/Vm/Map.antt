-- ===== src/Vm/Map.antt =====
-- HW3/xv6-src/vm.c: one round of the loop of `mappages`.
use cs.Base.{
  ℕ, ◌+◌, ◌-◌, ◌*◌, ◌/◌, ◌%◌, ◌^◌, ◌<◌, ◌≡◌, ◌≢◌, inl, inr, sym, ap, ◌∙◌, arith, Bool, true, false,
  update, Outcome, ok, panic,
}
use cs.Kalloc.{Kmem, pgsize}
use cs.Vm.{pdx, ptx, set_pte}
use cs.Vm.Or.{bit_or-page, bit_or-one}
use cs.Vm.Tables.{table_of, entry, pte_at_has, IsDirectory, pdx_lt, ptx_lt, pages_apart}
use cs.Vm.Walk.{Walked}
use cs.Vm.Stored.{stored-IsDirectory, stored_self, stored_other}
use Prim.Native.Nat.{bit_or}

-- The entry for a page with permissions: the address, the permissions, and the present bit
abbrev pub pte : ℕ → ℕ → ℕ
pte pa perm = pa + (perm + 1 - perm % 2)

pte_lem : (pa perm : ℕ) → pa % pgsize ≡ 0 → perm < pgsize → bit_or (bit_or pa perm) 1 ≡ pte pa perm
pte_lem pa perm h lt =
    let e = bit_or-page pa perm h lt in rw e (omega (arith, bit_or-one (pa + perm)))

-- What `mappages` of `n` pages from `va` to `pa` on makes of the memory, and whether it got through.
pub record Mapped (d va n pa perm : ℕ) (k : Kmem) (r : Kmem × Bool) : Type 0 where
  pub directory : IsDirectory r.0 d
  pub outside :
      (vb : ℕ)
      → vb < 2 ^ 32
      → ((i : ℕ) → i < n → vb / pgsize ≢ va / pgsize + i)
      → entry r.0.mem d vb ≡ entry k.mem d vb
  pub inside :
      r.1 ≡ true → (i : ℕ) → i < n → entry r.0.mem d (va + pgsize * i) ≡ pte (pa + pgsize * i) perm
  pub short : r.1 ≡ false → r.0.freelist ≡ 0

-- A call that does not panic and whose result is as described.
abbrev pub MapsPages : ℕ → ℕ → ℕ → ℕ → ℕ → Kmem → Outcome (Kmem × Bool) → Type 0
MapsPages d va n pa perm k (ok r) = Mapped d va n pa perm k r
MapsPages d va n pa perm k panic = ⊥

-- One page at the place that `walkpgdir` found
pub one-Mapped :
    (d va pa perm : ℕ) (k : Kmem) (w : Kmem × ℕ)
    → va % pgsize ≡ 0
    → va < 2 ^ 32
    → pa % pgsize ≡ 0
    → perm < pgsize
    → Walked d va true k w
    → w.1 ≢ 0
    → Mapped d va 1 pa perm k (set_pte w.0 w.1 (bit_or (bit_or pa perm) 1), true)
one-Mapped d va pa perm k w hv lv hp lp walked nz =
    let (has, at) = walked.found nz in
    let x = bit_or (bit_or pa perm) 1 in
    let dir = walked.directory in
    let i = pdx va in
    let m = ptx va in
    rw at (record {
      directory = stored-IsDirectory w.0 d i m x dir (pdx_lt va) (ptx_lt va) has;
      outside = λ vb hb away.
          stored_other w.0 d i m x dir (pdx_lt va) (ptx_lt va) has (pdx vb) (ptx vb) (pdx_lt vb)
            (ptx_lt vb) (pages_apart va vb lv hb (λ e. away 0 (omega arith) (omega arith)))
          ∙ walked.kept vb;
      inside = λ _ j lt.
          let here : va + pgsize * j ≡ va = omega arith in
          let there : pa ≡ pa + pgsize * j = omega arith in
          ap (entry (update w.0.mem (table_of w.0.mem d i + 4 * m) x) d) here
          ∙ stored_self w.0 d i m x dir (pdx_lt va) (ptx_lt va) has
          ∙ pte_lem pa perm hp lp
          ∙ ap (λ p. pte p perm) there;
      short = λ e. absurd (cc);
    })

pub one_missed :
    (d va pa perm n : ℕ) (k : Kmem) (w : Kmem × ℕ)
    → Walked d va true k w
    → w.1 ≡ 0
    → Mapped d va n pa perm k (w.0, false)
one_missed d va pa perm n k w walked z = record {
  directory = walked.directory;
  outside = λ vb _ _. walked.kept vb;
  inside = λ e. absurd (cc);
  short = λ _.
      let (same, _, why) = walked.missing z in
      elim why [ inl e ↦ absurd (cc) | inr e ↦ ap (λ (l : Kmem). l.freelist) same ∙ e ];
}

-- What stood in the place that `walkpgdir` found
pub place_entry :
    (d va : ℕ) (k : Kmem) (w : Kmem × ℕ)
    → Walked d va true k w
    → w.1 ≢ 0
    → w.0.mem w.1 ≡ entry k.mem d va
place_entry d va k w walked nz =
    let (has, at) = walked.found nz in
    ap w.0.mem at ∙ sym (pte_at_has w.0.mem d (pdx va) (ptx va) has) ∙ walked.kept va
