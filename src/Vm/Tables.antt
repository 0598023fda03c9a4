-- ===== src/Vm/Tables.antt =====
-- HW3/xv6-src/vm.c: what a page directory and its tables look like in memory, and the entry that
-- they hold for an address.
use cs.Base.{
  ℕ, ◌+◌, ◌*◌, ◌/◌, ◌%◌, ◌^◌, ◌<◌, ◌≡◌, ◌≢◌, refl, arith, List, [], ◌∷◌, All, ◌==◌, if◌then◌else◌,
  true,
}
use cs.Kalloc.{Kmem, pgsize}
use cs.Kalloc.Chain.{IsChain}
use cs.Vm.{pdx, ptx, pte_addr, p2v}

-- The directory's entry `i`, and the table that it points to where it is present.
abbrev pub pde_of : (ℕ → ℕ) → ℕ → ℕ → ℕ
pde_of mem d i = mem (d + 4 * i)

abbrev pub table_of : (ℕ → ℕ) → ℕ → ℕ → ℕ
table_of mem d i = p2v (pte_addr (pde_of mem d i))

abbrev pub HasTable : (ℕ → ℕ) → ℕ → ℕ → Type 0
HasTable mem d i = pde_of mem d i % 2 ≡ 1

-- Entry `m` of the table that the directory's entry `i` points to, and 0 where there is none
abbrev pub pte_at : (ℕ → ℕ) → ℕ → ℕ → ℕ → ℕ
pte_at mem d i m = if pde_of mem d i % 2 == 1 then mem (table_of mem d i + 4 * m) else 0

-- The entry for `va`
abbrev pub entry : (ℕ → ℕ) → ℕ → ℕ → ℕ
entry mem d va = pte_at mem d (pdx va) (ptx va)

pub pte_at_has :
    (mem : ℕ → ℕ) (d i m : ℕ) → HasTable mem d i → pte_at mem d i m ≡ mem (table_of mem d i + 4 * m)
pte_at_has mem d i m h = let b : (pde_of mem d i % 2 == 1) ≡ true = rw h refl in rw b refl

-- Pages that can be handed out and that neither the directory nor a table occupies
pub record IsSpare (mem : ℕ → ℕ) (d q : ℕ) : Type 0 where
  pub below : q < 2 ^ 32
  pub not_directory : q ≢ d
  pub not_table : (i : ℕ) → i < 1024 → HasTable mem d i → q ≢ table_of mem d i

-- The directory and its tables are pages apart from each other and from the free ones.
pub record IsDirectory (k : Kmem) (d : ℕ) : Type 0 where
  pub aligned : d % pgsize ≡ 0
  pub table_nonzero : (i : ℕ) → i < 1024 → HasTable k.mem d i → table_of k.mem d i ≢ 0
  pub table_elsewhere : (i : ℕ) → i < 1024 → HasTable k.mem d i → table_of k.mem d i ≢ d
  pub tables_apart :
      (i j : ℕ)
      → i < 1024
      → j < 1024
      → HasTable k.mem d i
      → HasTable k.mem d j
      → table_of k.mem d i ≡ table_of k.mem d j
      → i ≡ j
  pub free_pages : List ℕ
  pub chain : IsChain k.mem k.freelist free_pages
  pub spare : All (IsSpare k.mem d) free_pages

-- A chain depends only on the first words of its pages.
pub IsChain-kept :
    (old new : ℕ → ℕ) (p : ℕ) (qs : List ℕ)
    → All (λ q. new q ≡ old q) qs
    → IsChain old p qs
    → IsChain new p qs
IsChain-kept old new p [] h c = c
IsChain-kept old new p (q ∷ qs) (e, h) (at, nz, al, apart, c) =
    (at, nz, al, apart, rw e (IsChain-kept old new (old q) qs h c))

-- Words of two pages differ.
pub words_apart :
    (p q i j : ℕ)
    → p % pgsize ≡ 0
    → q % pgsize ≡ 0
    → p ≢ q
    → i < 1024
    → j < 1024
    → p + 4 * i ≢ q + 4 * j
words_apart p q i j hp hq ne hi hj e = omega arith

pub table_of-aligned : (mem : ℕ → ℕ) (d i : ℕ) → table_of mem d i % pgsize ≡ 0
table_of-aligned mem d i = let x = pde_of mem d i in aligned x
  where
    aligned : (x : ℕ) → p2v (pte_addr x) % pgsize ≡ 0
    aligned x = omega arith

pub pdx_lt : (va : ℕ) → pdx va < 1024
pdx_lt va = omega arith

pub ptx_lt : (va : ℕ) → ptx va < 1024
ptx_lt va = omega arith

-- Addresses of different pages differ in one of the two indices.
pub pages_apart :
    (va vb : ℕ)
    → va < 2 ^ 32
    → vb < 2 ^ 32
    → va / pgsize ≢ vb / pgsize
    → pdx va ≡ pdx vb
    → ptx va ≢ ptx vb
pages_apart va vb ha hb ne e f = omega arith

pub All-map {ℓ κ} :
    {P : ℕ → Type ℓ} {Q : ℕ → Type κ} (qs : List ℕ) → ((q : ℕ) → P q → Q q) → All P qs → All Q qs
All-map [] f h = tt
All-map (q ∷ qs) f (p, h) = (f q p, All-map qs f h)
