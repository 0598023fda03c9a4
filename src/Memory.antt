-- ===== src/Memory.antt =====
-- HW2/src/string.c: the kernel's routines on bytes of memory. Memory is a function of the address,
-- and no block reaches the end of the address space.
pub mod Move
pub mod Fill
pub mod Compare
mod Tests
use cs.Base.{
  ℕ, zero, suc, ◌+◌, ◌-◌, ◌*◌, ◌/◌, ◌%◌, ◌^◌, Bool, true, false, ◌&&◌, ◌==◌, ltb, leb,
  if◌then◌else◌, update, ℤ, pos, sub_ℕ,
}

-- `rep stosb`: the byte `c` into `n` bytes from `d` on
pub stosb : ℕ → ℕ → ℕ → (ℕ → ℕ) → ℕ → ℕ
stosb d c zero mem = mem
stosb d c (suc n) mem = stosb (d + 1) c n (update mem d (c % 256))

-- A store of the word `w`, lowest byte first
pub store : (ℕ → ℕ) → ℕ → ℕ → ℕ → ℕ
store mem d w =
    update
      (update (update (update mem d (w % 256)) (d + 1) (w / 256 % 256)) (d + 2) (w / 65536 % 256))
      (d + 3) (w / 16777216 % 256)

-- `rep stosl`: the word `w` into `n` words from `d` on
pub stosl : ℕ → ℕ → ℕ → (ℕ → ℕ) → ℕ → ℕ
stosl d w zero mem = mem
stosl d w (suc n) mem = stosl (d + 4) w n (store mem d w)

-- The terms of the word's disjunction have no bit in common.
pub memset : ℕ → ℕ → ℕ → (ℕ → ℕ) → ℕ → ℕ
memset dst c n mem =
    if dst % 4 == 0 && n % 4 == 0
    then (let b = c % 256 in stosl dst (b * 2 ^ 24 + b * 2 ^ 16 + b * 2 ^ 8 + b) (n / 4) mem)
    else stosb dst c n mem

pub memcmp : (ℕ → ℕ) → ℕ → ℕ → ℕ → ℤ
memcmp mem s1 s2 zero = pos 0
memcmp mem s1 s2 (suc n) =
    let rest = memcmp mem (s1 + 1) (s2 + 1) n in
    if mem s1 == mem s2 then rest else sub_ℕ (mem s1) (mem s2)

-- `*d++ = *s++`, `n` times
pub copy_up : ℕ → ℕ → ℕ → (ℕ → ℕ) → ℕ → ℕ
copy_up d s zero mem = mem
copy_up d s (suc n) mem = copy_up (d + 1) (s + 1) n (update mem d (mem s))

-- `*--d = *--s`, `n` times
pub copy_down : ℕ → ℕ → ℕ → (ℕ → ℕ) → ℕ → ℕ
copy_down d s zero mem = mem
copy_down d s (suc n) mem = copy_down (d - 1) (s - 1) n (update mem (d - 1) (mem (s - 1)))

pub memmove : ℕ → ℕ → ℕ → (ℕ → ℕ) → ℕ → ℕ
memmove dst src n mem =
    if ltb src dst && ltb dst (src + n)
    then copy_down (dst + n) (src + n) n mem
    else copy_up dst src n mem

pub strncmp : (ℕ → ℕ) → ℕ → ℕ → ℕ → ℤ
strncmp mem p q zero = pos 0
strncmp mem p q (suc n) =
    let rest = strncmp mem (p + 1) (q + 1) n in
    if mem p == 0
    then sub_ℕ (mem p) (mem q)
    else if mem p == mem q
    then rest
    else sub_ℕ (mem p) (mem q)

-- The first loop of `strncpy` with what is left of `n`, then the second.
pub zero_rest : ℕ → ℕ → (ℕ → ℕ) → ℕ → ℕ
zero_rest s zero mem = mem
zero_rest s (suc n) mem = zero_rest (s + 1) n (update mem s 0)

pub strncpy : ℕ → ℕ → ℕ → (ℕ → ℕ) → ℕ → ℕ
strncpy s t zero mem = mem
strncpy s t (suc n) mem =
    let mem' = update mem s (mem t) in
    let rest = strncpy (s + 1) (t + 1) n mem' in
    if mem t == 0 then zero_rest (s + 1) n mem' else rest
