-- ===== src/Syscall.antt =====
-- HW2/src/syscall.c: how the kernel fetches the arguments of a system call from user memory.
pub mod Bounds
mod Tests
use cs.Base.{
  ℕ, zero, suc, ◌+◌, ◌-◌, ◌*◌, ◌%◌, ◌^◌, Bool, true, false, ◌||◌, Option, none, some, ◌==◌, ltb,
  leb, if◌then◌else◌,
}

-- What the code reads of the current process: `sz`, the saved `%esp`, and the bytes of its memory,
-- each below 256.
pub record User : Type 0 where
  pub sz : ℕ
  pub esp : ℕ
  pub mem : ℕ → ℕ

-- `*(int*)(addr)`, as an unsigned word
pub int_at : (ℕ → ℕ) → ℕ → ℕ
int_at mem a = mem a + 256 * (mem (a + 1) + 256 * (mem (a + 2) + 256 * mem (a + 3)))

-- Addresses and words are below 2 ^ 32. `none` is -1.
pub fetchint : User → ℕ → Option ℕ
fetchint u addr =
    if leb u.sz addr || ltb u.sz ((addr + 4) % 2 ^ 32) then none else some (int_at u.mem addr)

-- The loop of `fetchstr`, for the `k` addresses from `s` to `ep`; `n` is `s - *pp`.
pub find_nul : (ℕ → ℕ) → ℕ → ℕ → ℕ → Option ℕ
find_nul mem zero s n = none
find_nul mem (suc k) s n =
    let rest = find_nul mem k (s + 1) (n + 1) in if mem s == 0 then some n else rest

-- The length; the pointer is `addr` itself.
pub fetchstr : User → ℕ → Option ℕ
fetchstr u addr = if leb u.sz addr then none else find_nul u.mem (u.sz - addr) addr 0

pub argint : User → ℕ → Option ℕ
argint u n = fetchint u ((u.esp + 4 + 4 * n) % 2 ^ 32)

-- `size` is an `int`, negative from 2 ^ 31 on.
pub ptr_in : User → ℕ → ℕ → Option ℕ
ptr_in u size i =
    if leb (2 ^ 31) size || (leb u.sz i || ltb u.sz ((i + size) % 2 ^ 32)) then none else some i

pub bind_arg : Option ℕ → (ℕ → Option ℕ) → Option ℕ
bind_arg none f = none
bind_arg (some i) f = f i

pub argptr : User → ℕ → ℕ → Option ℕ
argptr u n size = bind_arg (argint u n) (ptr_in u size)

-- The length of the string.
pub argstr : User → ℕ → Option ℕ
argstr u n = bind_arg (argint u n) (fetchstr u)
