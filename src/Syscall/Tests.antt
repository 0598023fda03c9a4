-- ===== src/Syscall/Tests.antt =====
-- A process of 4096 bytes that calls with a pointer on its stack.
use cs.Base.{◌≡◌, refl, none, some, ◌==◌, if◌then◌else◌, arith}
use cs.Syscall.{
  User, fetchint, find_nul, fetchstr, argint, argptr, ptr_in, bind_arg, int_at, argstr,
}
use cs.Syscall.Bounds.{IsString, IsBlock, slot_of, fetchstr_lem, argptr_lem}

-- "hi" at 16, and 16 as the second argument above the stack pointer 4000.
abbrev caller : User
caller = record {
  sz = 4096;
  esp = 4000;
  mem = λ a. if a == 16 then 104 else if a == 17 then 105 else if a == 4008 then 16 else 0;
}

hi_length : argstr caller 1 ≡ some 2
unfolding argstr argint fetchint fetchstr find_nul bind_arg int_at
hi_length = refl

hi_block : argptr caller 1 4080 ≡ some 16
unfolding argptr argint fetchint ptr_in bind_arg int_at
hi_block = refl

too_long : argptr caller 1 4081 ≡ none
unfolding argptr argint fetchint ptr_in bind_arg int_at
too_long = refl

fetchstr_lem_example : IsString caller 16 (fetchstr caller 16)
fetchstr_lem_example = fetchstr_lem caller 16

argptr_lem_example : IsBlock caller (slot_of caller 1) 4080 (argptr caller 1 4080)
argptr_lem_example = argptr_lem caller 1 4080 (omega arith) (omega arith)
