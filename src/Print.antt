-- ===== src/Print.antt =====
-- HW2/src/printf.c and `atoi` of HW2/src/ulib.c: numbers as text, and formatted output of user
-- programs as the list of the characters written.
pub mod Decimal
pub mod Format
mod Tests
use cs.Base.{
  ℕ, zero, suc, ◌+◌, ◌-◌, ◌*◌, ◌/◌, ◌%◌, ◌^◌, Bool, true, false, ◌&&◌, ◌||◌, List, [], ◌∷◌, ◌++◌,
  Option, none, some, ◌==◌, ltb, leb, if◌then◌else◌,
}

-- `digits[d]`
abbrev pub digit : ℕ → ℕ
digit d = if ltb d 10 then 48 + d else 55 + d

-- `buf` from its last character to its first, and the room that is left in it.
pub record Buf : Type 0 where
  pub chars : List ℕ
  pub room : ℕ

-- The loop over the digits of `x`; `none` is a write past the end of `buf`.
pub digits_loop : ℕ → ℕ → ℕ → List ℕ → Option Buf
digits_loop zero x base chars = none
digits_loop (suc room) x base chars =
    let chars' = digit (x % base) ∷ chars in
    let rest = digits_loop room (x / base) base chars' in
    if x / base == 0 then some (record { chars = chars'; room = room }) else rest

abbrev pub add_sign : Bool → Buf → Option (List ℕ)
add_sign false b = some b.chars
add_sign true b = if b.room == 0 then none else some (b'-' ∷ b.chars)

abbrev pub then_sign : Bool → Option Buf → Option (List ℕ)
then_sign neg none = none
then_sign neg (some b) = add_sign neg b

-- The characters written; `xx` is the word that holds the `int`.
pub printint : ℕ → ℕ → Bool → Option (List ℕ)
printint xx base sgn =
    let neg = sgn && leb (2 ^ 31) xx in
    then_sign neg (digits_loop 16 (if neg then 2 ^ 32 - xx else xx) base [])

-- `n` is the number so far.
pub atoi_from : ℕ → List ℕ → ℕ
atoi_from n [] = n
atoi_from n (c ∷ s) =
    let rest = atoi_from ((n * 10 + c - 48) % 2 ^ 32) s in if leb 48 c && leb c 57 then rest else n

pub atoi : List ℕ → ℕ
atoi s = atoi_from 0 s

-- "(null)"
abbrev pub null_text : List ℕ
null_text = 40 ∷ 110 ∷ 117 ∷ 108 ∷ 108 ∷ 41 ∷ []

abbrev pub written : Option (List ℕ) → List ℕ → Option (List ℕ)
written none s = none
written (some t) s = some (t ++ s)

abbrev pub before : Option (List ℕ) → Option (List ℕ) → Option (List ℕ)
before none r = none
before (some t) none = none
before (some t) (some s) = some (t ++ s)

-- What a conversion prints, and whether it takes an argument. `text_at` gives the characters up to
-- the nul at an address.
pub convert : (ℕ → List ℕ) → ℕ → ℕ → Option (List ℕ) × Bool
convert text_at c arg =
    if c == b'd'
    then (printint arg 10 true, true)
    else if c == b'x' || c == b'p'
    then (printint arg 16 false, true)
    else if c == b's'
    then (some (if arg == 0 then null_text else text_at arg), true)
    else if c == b'c'
    then (some (arg % 256 ∷ []), true)
    else if c == b'%'
    then (some (c ∷ []), false)
    else (some (b'%' ∷ c ∷ []), false)

-- The loop of `printf`; `percent` is whether `state` is '%', `args` the words on the stack from
-- `ap` on, as a function.
pub format : (ℕ → List ℕ) → (ℕ → ℕ) → ℕ → Bool → List ℕ → Option (List ℕ)
format text_at args ap percent [] = some []
format text_at args ap false (c ∷ fmt) =
    if c == b'%'
    then format text_at args ap true fmt
    else before (some (c ∷ [])) (format text_at args ap false fmt)
format text_at args ap true (c ∷ fmt) =
    let out = convert text_at c (args ap) in
    before out.0 (format text_at args (if out.1 then ap + 1 else ap) false fmt)

pub printf : (ℕ → List ℕ) → (ℕ → ℕ) → List ℕ → Option (List ℕ)
printf text_at args fmt = format text_at args 0 false fmt
