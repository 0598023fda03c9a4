-- ===== src/Vm/Or.antt =====
-- HW3/xv6-src/vm.c: `|` of a page's address and flags.
use Prim.Native.Nat.{max, bit_or, digits, bit_or-bitwise}
use cs.Base.{ℕ, zero, suc, ◌+◌, ◌-◌, ◌*◌, ◌/◌, ◌%◌, ◌≤◌, ◌<◌, ◌≡◌, refl, ap, subst, arith}

abbrev or_digits : ℕ → ℕ → ℕ → ℕ
or_digits n a b = digits (λ b. b) max n a b

or_digits_fuel : (n m a b : ℕ) → a ≤ n → a ≤ m → or_digits n a b ≡ or_digits m a b
or_digits_fuel zero zero a b p q = refl
or_digits_fuel zero (suc m) zero b p q = refl
or_digits_fuel zero (suc m) (suc a) b p q = absurd (omega arith)
or_digits_fuel (suc n) zero zero b p q = refl
or_digits_fuel (suc n) zero (suc a) b p q = absurd (omega arith)
or_digits_fuel (suc n) (suc m) zero b p q = refl
or_digits_fuel (suc n) (suc m) (suc a) b p q =
    omega (arith, or_digits_fuel n m (suc a / 2) (b / 2) (omega arith) (omega arith))

zero-bit_or : (b : ℕ) → bit_or 0 b ≡ b
zero-bit_or b = bit_or-bitwise 0 b

bit_or_step : (a b : ℕ) → bit_or a b ≡ bit_or (a / 2) (b / 2) * 2 + max (a % 2) (b % 2)
bit_or_step zero b = omega (arith, zero-bit_or b, zero-bit_or (b / 2))
bit_or_step (suc a) b = omega (
  arith,
  bit_or-bitwise (suc a) b,
  bit_or-bitwise (suc a / 2) (b / 2),
  or_digits_fuel a (suc a / 2) (suc a / 2) (b / 2) (omega arith) (omega arith),
)

bit_or-zero_fuel : (n a : ℕ) → a ≤ n → bit_or a 0 ≡ a
bit_or-zero_fuel n zero h = refl
bit_or-zero_fuel zero (suc a) h = absurd (omega arith)
bit_or-zero_fuel (suc n) (suc a) h =
    omega (arith, bit_or_step (suc a) 0, bit_or-zero_fuel n (suc a / 2) (omega arith))

abbrev doubled : ℕ → ℕ → ℕ
doubled zero q = q
doubled (suc k) q = 2 * doubled k q

abbrev halved : ℕ → ℕ → ℕ
halved zero p = p
halved (suc k) p = halved k (p / 2)

bit_or_twice : (q p : ℕ) → bit_or q (p / 2) ≡ q + p / 2 → bit_or (2 * q) p ≡ 2 * q + p
bit_or_twice q p h =
    let half : 2 * q / 2 ≡ q = omega arith in
    let e : bit_or (2 * q / 2) (p / 2) ≡ bit_or q (p / 2) = ap (λ x. bit_or x (p / 2)) half in
    omega (arith, bit_or_step (2 * q) p, e)

bit_or-doubled : (k q p : ℕ) → halved k p ≡ 0 → bit_or (doubled k q) p ≡ doubled k q + p
bit_or-doubled zero q p h = rw h (omega (arith, bit_or-zero_fuel q q (omega arith)))
bit_or-doubled (suc k) q p h = bit_or_twice (doubled k q) p (bit_or-doubled k q (p / 2) h)

-- Flags fit below a page's address.
pub bit_or-page : (pa p : ℕ) → pa % 4096 ≡ 0 → p < 4096 → bit_or pa p ≡ pa + p
bit_or-page pa p h lt =
    let low : halved 12 p ≡ 0 = omega arith in
    let whole : doubled 12 (pa / 4096) ≡ pa = omega arith in
    subst (λ x. bit_or x p ≡ x + p) whole (bit_or-doubled 12 (pa / 4096) p low)

pub bit_or-one : (x : ℕ) → bit_or x 1 ≡ x + 1 - x % 2
bit_or-one x = omega (arith, bit_or_step x 1, bit_or-zero_fuel (x / 2) (x / 2) (omega arith))

bit_or_two : (x : ℕ) → x / 2 % 2 ≡ 0 → bit_or x 2 ≡ x + 2
bit_or_two x h = omega (arith, bit_or_step x 2, bit_or-one (x / 2))

bit_or_four : (x : ℕ) → x / 4 % 2 ≡ 0 → bit_or x 4 ≡ x + 4
bit_or_four x h = omega (arith, bit_or_step x 4, bit_or_two (x / 2) (omega arith))

pub bit_or_flags : (pa : ℕ) → pa % 4096 ≡ 0 → bit_or (bit_or (bit_or pa 1) 2) 4 ≡ pa + 7
bit_or_flags pa h =
    let one : bit_or pa 1 ≡ pa + 1 = omega (arith, bit_or-one pa) in
    let two : bit_or (pa + 1) 2 ≡ pa + 3 = omega (arith, bit_or_two (pa + 1) (omega arith)) in
    let four : bit_or (pa + 3) 4 ≡ pa + 7 = omega (arith, bit_or_four (pa + 3) (omega arith)) in
    rw (one, two) four
