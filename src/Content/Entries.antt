-- ===== src/Content/Entries.antt =====
-- Words in a block.
use cs.Base.{ℕ, ◌+◌, ◌*◌, ◌/◌, ◌%◌, ◌^◌, ◌<◌, ◌≡◌, ◌≢◌, refl, ap, ◌∙◌, arith, ◌==◌, true, false}
use cs.Content.{word_at, put_word, byte_of}

put_word-own : (f : ℕ → ℕ) (j v r : ℕ) → r < 4 → put_word f j v (j * 4 + r) ≡ byte_of v r
unfolding put_word
put_word-own f j v r lt =
    let q : (j * 4 + r) / 4 ≡ j = omega arith in
    let m : (j * 4 + r) % 4 ≡ r = omega arith in
    let same : (j == j) ≡ true = ground arith in rw (q, m, same) refl

put_word-other : (f : ℕ → ℕ) (j v i : ℕ) → i / 4 ≢ j → put_word f j v i ≡ f i
unfolding put_word
put_word-other f j v i ne = let no_hit : (i / 4 == j) ≡ false = ground arith in rw no_hit refl

pub word_at-put_word : (f : ℕ → ℕ) (j v : ℕ) → v < 2 ^ 32 → word_at (put_word f j v) j ≡ v
unfolding word_at
word_at-put_word f j v lt =
    let b0 = ap (put_word f j v) (add-zero (j * 4)) ∙ put_word-own f j v 0 (omega arith) in
    let b1 = put_word-own f j v 1 (omega arith) in
    let b2 = put_word-own f j v 2 (omega arith) in
    let b3 = put_word-own f j v 3 (omega arith) in omega (arith, b0, b1, b2, b3)
  where
    add-zero : (n : ℕ) → n ≡ n + 0
    add-zero n = omega arith

pub word_at-put_word_ne : (f : ℕ → ℕ) (j k v : ℕ) → k ≢ j → word_at (put_word f j v) k ≡ word_at f k
unfolding word_at
word_at-put_word_ne f j k v ne =
    let b0 = put_word-other f j v (k * 4) (λ e. ne (omega arith)) in
    let b1 = put_word-other f j v (k * 4 + 1) (λ e. ne (omega arith)) in
    let b2 = put_word-other f j v (k * 4 + 2) (λ e. ne (omega arith)) in
    let b3 = put_word-other f j v (k * 4 + 3) (λ e. ne (omega arith)) in
    omega (arith, b0, b1, b2, b3)

pub word_at_zero : (f : ℕ → ℕ) (j : ℕ) → ((i : ℕ) → f i ≡ 0) → word_at f j ≡ 0
unfolding word_at
word_at_zero f j h = omega (arith, h (j * 4), h (j * 4 + 1), h (j * 4 + 2), h (j * 4 + 3))

pub word_at_same : (f g : ℕ → ℕ) (j : ℕ) → ((i : ℕ) → f i ≡ g i) → word_at f j ≡ word_at g j
unfolding word_at
word_at_same f g j h = omega (arith, h (j * 4), h (j * 4 + 1), h (j * 4 + 2), h (j * 4 + 3))
