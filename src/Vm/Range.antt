-- ===== src/Vm/Range.antt =====
-- HW3/xv6-src/vm.c: `mappages` maps a range of pages, and stops where no page for a table is left.
use cs.Base.{
  ℕ, zero, suc, ◌+◌, ◌-◌, ◌*◌, ◌/◌, ◌%◌, ◌^◌, ◌<◌, ◌≤◌, ◌≡◌, ◌≢◌, inl, inr, refl, sym, ap, ◌∙◌,
  arith, ◌==◌, Bool-cases, Bool, true, false, subst, Outcome, ok, panic, ℕ_discrete,
}
use cs.Kalloc.{Kmem, pgsize}
use cs.Vm.{pte_addr, set_pte, walkpgdir, map_from, mappages}
use cs.Vm.Tables.{entry, IsDirectory}
use cs.Vm.Walk.{walkpgdir_lem}
use cs.Vm.Map.{pte, Mapped, MapsPages, one-Mapped, one_missed, place_entry}
use Prim.Native.Nat.{bit_or}

Mapped-then :
    (d va n pa perm : ℕ) (k s : Kmem) (r : Kmem × Bool)
    → va % pgsize ≡ 0
    → va + pgsize * (n + 1) ≤ 2 ^ 32
    → Mapped d va 1 pa perm k (s, true)
    → Mapped d (va + pgsize) n (pa + pgsize) perm s r
    → Mapped d va (suc n) pa perm k r
Mapped-then d va n pa perm k s r hv lv one rest = record {
  directory = rest.directory;
  outside = λ vb hb away.
      rest.outside vb hb (λ i lt e. away (i + 1) (omega arith) (omega arith))
      ∙ one.outside vb hb (λ i lt e. away i (omega arith) e);
  inside = λ e i lt. elim (ℕ_discrete i 0) [
    | yes z ↦
        let start : va + pgsize * i ≡ va + pgsize * 0 = omega arith in
        let to : pa + pgsize * 0 ≡ pa + pgsize * i = omega arith in
        ap (entry r.0.mem d) start
        ∙ rest.outside (va + pgsize * 0) (omega arith) (λ j _ same. omega arith)
        ∙ one.inside refl 0 (omega arith)
        ∙ ap (λ p. pte p perm) to
    | no nz ↦
        let here : va + pgsize * i ≡ va + pgsize + pgsize * (i - 1) = omega arith in
        let to : pa + pgsize + pgsize * (i - 1) ≡ pa + pgsize * i = omega arith in
        ap (entry r.0.mem d) here ∙ rest.inside e (i - 1) (omega arith) ∙ ap (λ p. pte p perm) to
  ];
  short = rest.short;
}

MapsPages-then :
    (d va n pa perm : ℕ) (k s : Kmem) (o : Outcome (Kmem × Bool))
    → va % pgsize ≡ 0
    → va + pgsize * (n + 1) ≤ 2 ^ 32
    → Mapped d va 1 pa perm k (s, true)
    → MapsPages d (va + pgsize) n (pa + pgsize) perm s o
    → MapsPages d va (suc n) pa perm k o
MapsPages-then d va n pa perm k s (ok r) hv lv one rest =
    Mapped-then d va n pa perm k s r hv lv one rest
MapsPages-then d va n pa perm k s panic hv lv one rest = rest

-- The pages are not mapped yet.
abbrev pub IsUnmapped : (ℕ → ℕ) → ℕ → ℕ → ℕ → Type 0
IsUnmapped mem d va n = (i : ℕ) → i < n → entry mem d (va + pgsize * i) % 2 ≡ 0

rest-IsUnmapped :
    (d va n pa perm : ℕ) (k s : Kmem)
    → va % pgsize ≡ 0
    → va + pgsize * (n + 1) ≤ 2 ^ 32
    → Mapped d va 1 pa perm k (s, true)
    → IsUnmapped k.mem d va (suc n)
    → IsUnmapped s.mem d (va + pgsize) n
rest-IsUnmapped d va n pa perm k s hv lv one free i lt =
    let here : va + pgsize + pgsize * i ≡ va + pgsize * (i + 1) = omega arith in
    ap (λ x. x % 2)
      (ap (entry s.mem d) here
        ∙ one.outside (va + pgsize * (i + 1)) (omega arith) (λ j lj e. omega arith))
    ∙ free (i + 1) (omega arith)

map_from_lem :
    (n d va last pa perm : ℕ) (k : Kmem)
    → IsDirectory k d
    → va % pgsize ≡ 0
    → pa % pgsize ≡ 0
    → perm < pgsize
    → 0 < n
    → va + pgsize * n ≡ last + pgsize
    → va + pgsize * n ≤ 2 ^ 32
    → pa + pgsize * n ≤ 2 ^ 32
    → IsUnmapped k.mem d va n
    → MapsPages d va n pa perm k (map_from n d va last pa perm k)
unfolding map_from
map_from_lem zero d va last pa perm k dir hv hp lp pos el lv lpa free = absurd (omega arith)
map_from_lem (suc n) d va last pa perm k dir hv hp lp pos el lv lpa free =
    let w = walkpgdir d va true k in
    let walked = walkpgdir_lem d va true k dir in
    let s = set_pte w.0 w.1 (bit_or (bit_or pa perm) 1) in
    elim (Bool-cases (w.1 == 0)) [
      | inl b ↦ rw b (one_missed d va pa perm (suc n) k w walked (ground arith))
      | inr b ↦
          let nz : w.1 ≢ 0 = ground arith in
          let start : va + pgsize * 0 ≡ va = omega arith in
          let was : w.0.mem w.1 % 2 ≡ 0 =
            ap (λ x. x % 2) (place_entry d va k w walked nz ∙ ap (entry k.mem d) (sym start))
            ∙ free 0 (omega arith) in
          let fresh : (w.0.mem w.1 % 2 == 1) ≡ false = rw was refl in
          let one = one-Mapped d va pa perm k w hv (omega arith) hp lp walked nz in
          elim (Bool-cases (va == last)) [
            | inl e ↦
                let done : 0 ≡ n = ground arith in
                rw (b, fresh, e) (subst (λ j. Mapped d va (suc j) pa perm k (s, true)) done one)
            | inr e ↦
                let left : 0 < n = ground arith in
                let next_va : (va + pgsize) % 2 ^ 32 ≡ va + pgsize = omega arith in
                let next_pa : (pa + pgsize) % 2 ^ 32 ≡ pa + pgsize = omega arith in
                rw (b, fresh, e, next_va, next_pa)
                  (MapsPages-then d va n pa perm k s _ hv (omega arith) one (
                    map_from_lem n d (va + pgsize) last (pa + pgsize) perm s one.directory
                      (omega arith) (omega arith) lp left (omega arith) (omega arith) (omega arith)
                      (rest-IsUnmapped d va n pa perm k s hv (omega arith) one free)))
          ]
    ]

-- On a well-formed directory and for `n` pages, at least one, from an aligned address to an aligned
-- address, both below the end of the address space, with permissions in the low bits and none of
-- the pages mapped: `mappages` does not panic and its rounds suffice; the directory stays
-- well-formed and the entries of all other pages are kept; if it returns 0, each page's entry has
-- its address, the permissions and the present bit, and if it returns -1, no page is free.
pub mappages_lem :
    (n d va pa perm : ℕ) (k : Kmem)
    → IsDirectory k d
    → va % pgsize ≡ 0
    → pa % pgsize ≡ 0
    → perm < pgsize
    → 0 < n
    → va + pgsize * n ≤ 2 ^ 32
    → pa + pgsize * n ≤ 2 ^ 32
    → IsUnmapped k.mem d va n
    → MapsPages d va n pa perm k (mappages d va (pgsize * n) pa perm k)
unfolding mappages
mappages_lem n d va pa perm k dir hv hp lp pos lv lpa free =
    let first : pte_addr va ≡ va = omega arith in
    let last : pte_addr ((va + pgsize * n + 2 ^ 32 - 1) % 2 ^ 32) ≡ va + pgsize * n - pgsize =
      omega arith in
    let rounds : (va + pgsize * n - pgsize + 2 ^ 32 - va) % 2 ^ 32 / 4096 + 1 ≡ n = omega arith in
    rw (first, last, rounds)
      (map_from_lem n d va (va + pgsize * n - pgsize) pa perm k dir hv hp lp pos (omega arith) lv
        lpa free)
