-- ===== src/Vm/Interface.antt =====
-- HW3/xv6-src/vm.c: these page tables are what shared memory takes them to be.
use cs.Base.{
  ℕ, zero, suc, ◌+◌, ◌-◌, ◌*◌, ◌/◌, ◌%◌, ◌^◌, ◌<◌, ◌≡◌, inl, inr, refl, sym, ap, ◌∙◌, arith, ◌==◌,
  Bool-cases, Bool, true, false, Option, none, some, Outcome, ok, panic, Ensures, subst,
}
use cs.Kalloc.{Kmem, pgsize}
use cs.Shared.{Paging}
use cs.Vm.{pdx, ptx, pte_addr, set_pte, walkpgdir, map_from, mappages}
use cs.Vm.Tables.{pde_of, table_of, entry, HasTable, IsDirectory, pdx_lt, ptx_lt}
use cs.Vm.Walk.{walkpgdir_lem}
use cs.Vm.Stored.{stored-IsDirectory}
use cs.Vm.Map.{Mapped, MapsPages, place_entry}
use cs.Vm.Round.{entry_lacks}
use cs.Vm.Range.{mappages_lem}
use Prim.Native.Nat.{bit_or}

-- Every call of `mappages` that does not panic keeps the directory well-formed.
map_from-IsDirectory :
    (n d a last pa perm : ℕ) (k : Kmem)
    → IsDirectory k d
    → Ensures (λ (r : Kmem × Bool). IsDirectory r.0 d) (map_from n d a last pa perm k)
unfolding map_from
map_from-IsDirectory zero d a last pa perm k dir = tt
map_from-IsDirectory (suc n) d a last pa perm k dir =
    let w = walkpgdir d a true k in
    let walked = walkpgdir_lem d a true k dir in
    let x = bit_or (bit_or pa perm) 1 in
    elim (Bool-cases (w.1 == 0)) [
      | inl b ↦ rw b walked.directory
      | inr b ↦ elim (Bool-cases (w.0.mem w.1 % 2 == 1)) [
        | inl e ↦ rw (b, e) tt
        | inr e ↦
            let (has, at) = walked.found (ground arith) in
            let kept : IsDirectory (set_pte w.0 w.1 x) d =
              subst (λ s. IsDirectory (set_pte w.0 s x) d) (sym at)
                (stored-IsDirectory w.0 d (pdx a) (ptx a) x walked.directory (pdx_lt a) (ptx_lt a)
                  has) in
            elim (Bool-cases (a == last)) [
              | inl f ↦ rw (b, e, f) kept
              | inr f ↦
                  rw (b, e, f)
                    (map_from-IsDirectory n d ((a + pgsize) % 2 ^ 32) last ((pa + pgsize) % 2 ^ 32)
                      perm (set_pte w.0 w.1 x) kept)
            ]
      ]
    ]

-- A mapped page is not mapped again.
map_from_present :
    (n d a last pa perm : ℕ) (k : Kmem)
    → IsDirectory k d
    → entry k.mem d a % 2 ≡ 1
    → map_from (suc n) d a last pa perm k ≡ panic
unfolding map_from
map_from_present n d a last pa perm k dir h =
    let w = walkpgdir d a true k in
    let walked = walkpgdir_lem d a true k dir in
    elim (Bool-cases (w.1 == 0)) [
      | inl b ↦
          let lacks = (walked.missing (ground arith)).1 in
          let gone = entry_lacks k.mem d (pdx a) (ptx a) lacks in absurd (omega (arith, gone, h))
      | inr b ↦
          let word = place_entry d a k w walked (ground arith) in
          let e : (w.0.mem w.1 % 2 == 1) ≡ true = rw (word, h) refl in rw (b, e) refl
    ]

mappages_present :
    (d va pa perm : ℕ) (k : Kmem)
    → IsDirectory k d
    → va % pgsize ≡ 0
    → entry k.mem d va % 2 ≡ 1
    → mappages d va pgsize pa perm k ≡ panic
unfolding mappages
mappages_present d va pa perm k dir hv h =
    let last = pte_addr ((va + pgsize + 2 ^ 32 - 1) % 2 ^ 32) in
    let first : pte_addr va ≡ va = omega arith in
    let rounds = (last + 2 ^ 32 - va) % 2 ^ 32 / 4096 in
    let more : rounds + 1 ≡ suc rounds = omega arith in
    rw (first, more) (map_from_present rounds d va last pa perm k dir h)

-- A directory of the interface is a memory in which the directory at `d` is well-formed.
module _ (d : ℕ) where
  abbrev Dir : Type 0
  Dir = (k : Kmem) × IsDirectory k d

  abbrev packed :
      (o : Outcome (Kmem × Bool))
      → Ensures (λ (r : Kmem × Bool). IsDirectory r.0 d) o
      → Outcome (Option Dir)
  packed (ok (l, true)) h = ok (some (l, h))
  packed (ok (l, false)) h = ok none
  packed panic h = panic

  abbrev unpacked : Outcome (Option Dir) → Outcome (Kmem × Bool)
  unpacked (ok (some e)) = ok (e.0, true)
  unpacked (ok none) = panic
  unpacked panic = panic

  packed_ok :
      (o : Outcome (Kmem × Bool)) (h : Ensures (λ (r : Kmem × Bool). IsDirectory r.0 d) o) (e : Dir)
      → packed o h ≡ ok (some e)
      → o ≡ ok (e.0, true)
  packed_ok (ok (l, true)) h e same = ap unpacked same
  packed_ok (ok (l, false)) h e same = absurd (cc)
  packed_ok panic h e same = absurd (cc)

  pub mappages-IsDirectory :
      (va pa : ℕ) (dir : Dir)
      → Ensures (λ (r : Kmem × Bool). IsDirectory r.0 d) (mappages d va pgsize pa 6 dir.0)
  unfolding mappages
  mappages-IsDirectory va pa dir = map_from-IsDirectory _ d (pte_addr va) _ pa 6 dir.0 dir.1

  abbrev map_page : Dir → ℕ → ℕ → Outcome (Option Dir)
  map_page dir va pa = packed (mappages d va pgsize pa 6 dir.0) (mappages-IsDirectory va pa dir)

  pub page-Mapped :
      (dir e : Dir) (va pa : ℕ)
      → va % pgsize ≡ 0
      → va < 2 ^ 32
      → pa % pgsize ≡ 0
      → pa < 2 ^ 32
      → map_page dir va pa ≡ ok (some e)
      → Mapped d va 1 pa 6 dir.0 (e.0, true)
  page-Mapped dir e va pa hv lv hp lp same =
      let k = dir.0 in
      let went = packed_ok (mappages d va pgsize pa 6 k) (mappages-IsDirectory va pa dir) e same in
      elim (Bool-cases (entry k.mem d va % 2 == 1)) [
        | inl b ↦ let stops = mappages_present d va pa 6 k dir.1 hv (ground arith) in absurd (cc)
        | inr b ↦
            let free : (i : ℕ) → i < 1 → entry k.mem d (va + pgsize * i) % 2 ≡ 0 = λ i lt.
              let here : va + pgsize * i ≡ va = omega arith in
              ap (λ a. entry k.mem d a % 2) here ∙ absent (entry k.mem d va) b in
            subst (MapsPages d va 1 pa 6 k) went (
              mappages_lem 1 d va pa 6 k dir.1 hv hp (omega arith) (omega arith) (omega arith)
                (omega arith) free)
      ]
    where
      absent : (x : ℕ) → (x % 2 == 1) ≡ false → x % 2 ≡ 0
      absent x b = ground arith

  abbrev has_table : Dir → ℕ → Bool
  has_table dir va = pde_of dir.0.mem d (pdx va) % 2 == 1

  -- A write of 0 to the entry, where there is a table
  pub clear : Dir → ℕ → Dir
  clear dir va = elim (Bool-cases (has_table dir va)) [
    | inl b ↦
        let has : HasTable dir.0.mem d (pdx va) = ground arith in
        (
          set_pte dir.0 (table_of dir.0.mem d (pdx va) + 4 * ptx va) 0,
          stored-IsDirectory dir.0 d (pdx va) (ptx va) 0 dir.1 (pdx_lt va) (ptx_lt va) has,
        )
    | inr b ↦ dir
  ]

  -- The entries of page tables in memory obey the laws that shared memory relies on.
  abbrev pub paging : Paging
  paging = record {
    Dir = Dir;
    entry = λ dir va. entry dir.0.mem d va;
    has_table = has_table;
    map_page = map_page;
    clear = clear;
    entry-map_page = λ dir e va pa hv hp same.
        let start : va ≡ va + pgsize * 0 = omega arith in
        let to : pa + pgsize * 0 ≡ pa = omega arith in
        let one = page-Mapped dir e va pa hv.0 hv.1 hp.0 hp.1 same in
        ap (entry e.0.mem d) start ∙ one.inside refl 0 (omega arith) ∙ ap (λ p. p + 7) to;
    entry-map_page_ne = λ dir e va pa va' hv hp hv' same ne.
        let one = page-Mapped dir e va pa hv.0 hv.1 hp.0 hp.1 same in
        one.outside va' hv'.1 (λ i lt eq. ne (omega arith));
  }
