-- ===== src/Print/Decimal.antt =====
-- `printint` in base 10 fits its buffer, and `atoi` reads back what it prints.
use cs.Base.{
  ℕ, zero, suc, ◌+◌, ◌-◌, ◌*◌, ◌/◌, ◌%◌, ◌^◌, ◌≤◌, ◌<◌, ◌≡◌, inl, inr, refl, ap, sym, ◌∙◌, Bool,
  true, false, ◌&&◌, ◌==◌, leb, if◌then◌else◌, arith, Bool-cases, List, [], ◌∷◌, ◌++◌, Option, none,
  some, append-nil,
}
use cs.Print.{digit, Buf, digits_loop, then_sign, printint, atoi_from, atoi}

-- A digit read after `n`.
atoi-digit :
    (n d : ℕ) (s : List ℕ)
    → d < 10
    → n * 10 + d < 2 ^ 32
    → atoi_from n (digit d ∷ s) ≡ atoi_from (n * 10 + d) s
unfolding atoi_from
atoi-digit n d s hd hn =
    let is_digit : digit d ≡ 48 + d = ground arith in
    let value : (n * 10 + (48 + d) - 48) % 2 ^ 32 ≡ n * 10 + d = omega arith in
    let low : leb 48 (48 + d) && leb (48 + d) 57 ≡ true = ground arith in
    rw (is_digit, low, value) refl

-- The loop with `room` places ends with room left for `spare`, and `atoi` reads its digits as `x`.
abbrev Reads : ℕ → ℕ → List ℕ → Option Buf → Type 0
Reads spare x chars none = ⊥
Reads spare x chars (some b) =
    (spare ≤ b.room)
    × ((rest : List ℕ) → atoi_from 0 (b.chars ++ rest) ≡ atoi_from x (chars ++ rest))

-- 10 ^ (k + 1)
abbrev tens : ℕ → ℕ
tens zero = 10
tens (suc k) = 10 * tens k

one_digit :
    (x : ℕ) (chars rest : List ℕ)
    → x < 10
    → atoi_from 0 ((digit (x % 10) ∷ chars) ++ rest) ≡ atoi_from x (chars ++ rest)
one_digit x chars rest h =
    let same : x % 10 ≡ x = omega arith in
    rw same (
      atoi-digit 0 x (chars ++ rest) h (omega arith)
      ∙ ap (λ n. atoi_from n (chars ++ rest)) (omega arith))

next_digit :
    (x : ℕ) (chars rest : List ℕ)
    → x < 2 ^ 32
    → atoi_from (x / 10) ((digit (x % 10) ∷ chars) ++ rest) ≡ atoi_from x (chars ++ rest)
next_digit x chars rest h =
    let whole : x / 10 * 10 + x % 10 ≡ x = omega arith in
    atoi-digit (x / 10) (x % 10) (chars ++ rest) (omega arith) (omega arith)
    ∙ ap (λ n. atoi_from n (chars ++ rest)) whole

Reads-next :
    (spare x : ℕ) (chars : List ℕ) (o : Option Buf)
    → x < 2 ^ 32
    → Reads spare (x / 10) (digit (x % 10) ∷ chars) o
    → Reads spare x chars o
Reads-next spare x chars none h r = r
Reads-next spare x chars (some b) h (room, reads) =
    (room, λ rest. reads rest ∙ next_digit x chars rest h)

digits_loop-Reads :
    (spare k room x : ℕ) (chars : List ℕ)
    → room ≡ k + spare
    → x < tens k
    → x < 2 ^ 32
    → Reads spare x chars (digits_loop (suc room) x 10 chars)
unfolding digits_loop
digits_loop-Reads spare zero room x chars e h w =
    let small : x < 10 = omega arith in
    let last : (x / 10 == 0) ≡ true = ground arith in
    rw last (omega arith, λ rest. one_digit x chars rest small)
digits_loop-Reads spare (suc k) zero x chars e h w = absurd (omega arith)
digits_loop-Reads spare (suc k) (suc room) x chars e h w = elim (Bool-cases (x / 10 == 0)) [
  | inl last ↦
      let small : x < 10 = ground arith in
      rw last (omega arith, λ rest. one_digit x chars rest small)
  | inr more ↦ rw more (
      Reads-next spare x chars (digits_loop (suc room) (x / 10) 10 (digit (x % 10) ∷ chars)) w (
        digits_loop-Reads spare k room (x / 10) (digit (x % 10) ∷ chars) (omega arith) (omega arith)
          (omega arith)))
]

stop : (n : ℕ) → atoi_from n [] ≡ n
unfolding atoi_from
stop n = refl

-- The number whose digits a printed number has, after a minus sign if it is negative.
abbrev pub Prints : ℕ → Option (List ℕ) → Type 0
Prints xx none = ⊥
Prints xx (some s) =
    if leb (2 ^ 31) xx
    then ((t : List ℕ) × (s ≡ b'-' ∷ t) × (atoi t ≡ 2 ^ 32 - xx))
    else atoi s ≡ xx

Prints-loop :
    (xx : ℕ) (neg : Bool) (o : Option Buf)
    → leb (2 ^ 31) xx ≡ neg
    → Reads 1 (if neg then 2 ^ 32 - xx else xx) [] o
    → Prints xx (then_sign neg o)
unfolding atoi
Prints-loop xx neg none e r = absurd r
Prints-loop xx false (some b) e (room, reads) =
    let same : b.chars ++ [] ≡ b.chars = append-nil b.chars in
    rw e (ap (atoi_from 0) (sym same) ∙ reads [] ∙ stop xx)
Prints-loop xx true (some b) e (room, reads) =
    let room_left : (b.room == 0) ≡ false = ground arith in
    let same : b.chars ++ [] ≡ b.chars = append-nil b.chars in
    rw (room_left, e) (b.chars, refl, ap (atoi_from 0) (sym same) ∙ reads [] ∙ stop (2 ^ 32 - xx))

-- `printint` of any `int` in base 10 fits `buf`, and `atoi` of its output is the number: of the whole
-- output if the number is not negative, else of what follows the minus sign, without the sign.
pub printint_lem : (xx : ℕ) → xx < 2 ^ 32 → Prints xx (printint xx 10 true)
unfolding printint
printint_lem xx h = elim (Bool-cases (leb (2 ^ 31) xx)) [
  | inl e ↦ rw (e) (
      Prints-loop xx true (digits_loop 16 (2 ^ 32 - xx) 10 []) e
        (digits_loop-Reads 1 14 15 (2 ^ 32 - xx) [] refl (omega arith) (ground arith)))
  | inr e ↦ rw (e) (
      Prints-loop xx false (digits_loop 16 xx 10 []) e
        (digits_loop-Reads 1 14 15 xx [] refl (omega arith) h))
]
