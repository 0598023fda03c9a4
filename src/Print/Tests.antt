-- ===== src/Print/Tests.antt =====
-- Numbers and formats.
use cs.Base.{ℕ, ◌≡◌, refl, List, [], ◌∷◌, some, true, false, arith, ◌-◌, ◌^◌}
use cs.Print.{printint, digits_loop, printf, format, convert}
use cs.Print.Decimal.{Prints, printint_lem}

abbrev nowhere : ℕ → List ℕ
nowhere a = []

minus_one : printint (2 ^ 32 - 1) 10 true ≡ some (b'-' ∷ b'1' ∷ [])
unfolding printint digits_loop
minus_one = refl

hex : printint 48879 16 false ≡ some (b'B' ∷ b'E' ∷ b'E' ∷ b'F' ∷ [])
unfolding printint digits_loop
hex = refl

two_args :
    printf nowhere (λ i. i) (b'%' ∷ b'd' ∷ b',' ∷ b'%' ∷ b'x' ∷ []) ≡ some (b'0' ∷ b',' ∷ b'1' ∷ [])
unfolding printf format convert printint digits_loop
two_args = refl

printint_lem_example : Prints (2 ^ 32 - 1) (printint (2 ^ 32 - 1) 10 true)
printint_lem_example = printint_lem (2 ^ 32 - 1) (omega arith)
