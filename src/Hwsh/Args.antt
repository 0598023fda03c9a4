-- ===== src/Hwsh/Args.antt =====
-- `peek`, `gettoken` and `parseexec`: the words of a command.
use cs.Base.{
  ℕ, zero, suc, ◌+◌, ◌≤◌, ◌<◌, ◌≡◌, ◌≢◌, ◌⊎◌, inl, inr, refl, ap, subst, sym, ◌∙◌, true, false,
  ◌||◌, List, [], ◌∷◌, ◌++◌, arith, ◌==◌, if◌then◌else◌, length, length-append, Bool-cases, All,
}
use cs.Hwsh.{
  Text, maxargs, is_space, is_symbol, is_op, Parse, done, exits, too_many_args, out_of_fuel,
  skip_space, starts, peek, word_of, after_word, token_at, gettoken, exec_loop, parseexec,
}

pub length-skip_space : (s : Text) → length (skip_space s) ≤ length s
unfolding skip_space
length-skip_space [] = omega arith
length-skip_space (c ∷ s) = ground (arith, length-skip_space s)

-- What `skip_space` leaves starts with no white space.
skip_space_lem : (s : Text) → starts is_space (skip_space s) ≡ false
unfolding skip_space
skip_space_lem [] = refl
skip_space_lem (c ∷ s) = elim (Bool-cases (is_space c)) [
  | inl e ↦ rw e (skip_space_lem s)
  | inr e ↦ rw e e
]

pub length-after_word : (s : Text) → length (after_word s) ≤ length s
unfolding after_word
length-after_word [] = omega arith
length-after_word (c ∷ s) = ground (arith, length-after_word s)

-- A word is not empty, and holds no white space and no symbol.
abbrev pub IsWordChar : ℕ → Type 0
IsWordChar c = (is_space c || is_symbol c) ≡ false

pub record IsWord (w : Text) : Type 0 where
  pub nonempty : w ≢ []
  pub chars : All IsWordChar w

word_of_chars : (s : Text) → All IsWordChar (word_of s)
unfolding word_of
word_of_chars [] = tt
word_of_chars (c ∷ s) = elim (Bool-cases (is_space c || is_symbol c)) [
  | inl e ↦ rw e tt
  | inr e ↦ rw e (e, word_of_chars s)
]

abbrev pub Ends : Text → Type 0
Ends s = (s ≡ []) ⊎ (starts is_op s ≡ true)

-- A symbol that is no operator is no word either: the loop comes back to it with an empty word
-- until `argv` is full.
exec_loop_stuck :
    (room : ℕ) (argv : List Text) (c : ℕ) (s : Text)
    → is_space c ≡ false
    → is_symbol c ≡ true
    → is_op c ≡ false
    → exec_loop room argv (c ∷ s) ≡ exits too_many_args
unfolding exec_loop peek gettoken token_at skip_space word_of after_word
exec_loop_stuck zero argv c s sp sy o = refl
exec_loop_stuck (suc room) argv c s sp sy o =
    ground (arith, exec_loop_stuck room (argv ++ ([] ∷ [])) c s sp sy o)

abbrev pub rest_after : Text → Text
rest_after r = skip_space (after_word r)

pub skip-skip : (s : Text) → skip_space (skip_space s) ≡ skip_space s
unfolding skip_space
skip-skip [] = refl
skip-skip (c ∷ s) = elim (Bool-cases (is_space c)) [
  | inl e ↦ rw e (skip-skip s)
  | inr e ↦ rw (e, e)
]

-- One round, by what comes next.
module _ (room : ℕ) (argv : List Text) (s : Text) where
  round_end : skip_space s ≡ [] → exec_loop (suc room) argv s ≡ done (argv, [])
  unfolding exec_loop peek gettoken token_at skip_space
  round_end e = ground arith

  skip_first : exec_loop (suc room) argv s ≡ exec_loop (suc room) argv (skip_space s)
  unfolding exec_loop peek
  skip_first = ground (arith, skip-skip s)

  module _ (c : ℕ) (r : Text) (e : skip_space s ≡ c ∷ r) where
    space_no : is_space c ≡ false
    space_no = rw e at (skip_space_lem s)

    again : skip_space (c ∷ r) ≡ c ∷ r
    again = ap skip_space (sym e) ∙ skip-skip s ∙ e

    round_op : is_op c ≡ true → exec_loop (suc room) argv s ≡ done (argv, c ∷ r)
    unfolding exec_loop peek
    round_op o = rw (e, o)

    round_symbol :
        is_symbol c ≡ true → is_op c ≡ false → exec_loop (suc room) argv s ≡ exits too_many_args
    round_symbol sy o = skip_first ∙ rw e (exec_loop_stuck (suc room) argv c r space_no sy o)

    round_word :
        is_symbol c ≡ false
        → is_op c ≡ false
        → exec_loop (suc room) argv s ≡ (
            if room == 0
            then exits too_many_args
            else exec_loop room (argv ++ (word_of (c ∷ r) ∷ [])) (rest_after (c ∷ r)))
    unfolding exec_loop peek gettoken token_at
    round_word sy o = ground (arith, again, e, sy, o)

-- What `parseexec` gives: fewer than `bound` words, all proper, and a rest that ends a command.
abbrev pub ExecFine : ℕ → ℕ → Parse (List Text × Text) → Type 0
ExecFine n bound (done q) = (length q.1 ≤ n) × (length q.0 < bound) × All IsWord q.0 × Ends q.1
ExecFine n bound (exits e) = e ≢ out_of_fuel

ExecFine-weaken :
    (m n b : ℕ) (r : Parse (List Text × Text)) → m ≤ n → ExecFine m b r → ExecFine n b r
ExecFine-weaken m n b (done q) le h = (omega (arith, h.0), h.1, h.2, h.3)
ExecFine-weaken m n b (exits e) le h = h

All-snoc : (ws : List Text) (w : Text) → All IsWord ws → IsWord w → All IsWord (ws ++ (w ∷ []))
All-snoc [] w h hw = (hw, tt)
All-snoc (x ∷ ws) w h hw = (h.0, All-snoc ws w h.1 hw)

word_of-IsWord : (c : ℕ) (r : Text) → IsWordChar c → IsWord (word_of (c ∷ r))
unfolding word_of
word_of-IsWord c r h = record {
  nonempty = ground arith;
  chars = unfold word_of in word_of_chars (c ∷ r);
}

rest_after_shorter : (c : ℕ) (r : Text) → IsWordChar c → length (rest_after (c ∷ r)) ≤ length r
unfolding after_word
rest_after_shorter c r h =
    rw h (omega (arith, length-skip_space (after_word r), length-after_word r))

-- The word read, the loop ends if `argv` is full and goes on if not.
exec_loop_next :
    (room : ℕ) (argv : List Text) (s : Text) (c : ℕ) (r : Text)
    → IsWordChar c
    → All IsWord argv
    → length (c ∷ r) ≤ length s
    → (0 < room
        → let argv' = argv ++ (word_of (c ∷ r) ∷ []) in
          ExecFine
            (length (rest_after (c ∷ r)))
            (length argv' + room)
            (exec_loop room argv' (rest_after (c ∷ r))))
    → ExecFine (length s) (length argv + suc room) (
        if room == 0
        then exits too_many_args
        else exec_loop room (argv ++ (word_of (c ∷ r) ∷ [])) (rest_after (c ∷ r)))
exec_loop_next zero argv s c r plain h shorter ih = ground arith
exec_loop_next (suc room) argv s c r plain h shorter ih =
    let argv' = argv ++ (word_of (c ∷ r) ∷ []) in
    let bound : length argv' + suc room ≡ length argv + suc (suc room) =
      omega (arith, length-append argv (word_of (c ∷ r) ∷ [])) in
    let full : (suc room == 0) ≡ false = ground arith in
    rw full (
      ExecFine-weaken (length (rest_after (c ∷ r))) (length s) (length argv + suc (suc room))
        (exec_loop (suc room) argv' (rest_after (c ∷ r)))
        (omega (arith, rest_after_shorter c r plain)) (rw bound at (ih (omega arith))))

-- One round, with what holds of the rounds after it.
exec_loop_round :
    (room : ℕ) (argv : List Text) (s t : Text)
    → All IsWord argv
    → ((ws : List Text) (r : Text)
        → 0 < room
        → All IsWord ws
        → ExecFine (length r) (length ws + room) (exec_loop room ws r))
    → skip_space s ≡ t
    → ExecFine (length s) (length argv + suc room) (exec_loop (suc room) argv s)
exec_loop_round room argv s [] h ih e =
    rw (round_end room argv s e) (omega arith, omega arith, h, inl refl)
exec_loop_round room argv s (c ∷ r) h ih e =
    let shorter : length (c ∷ r) ≤ length s =
      subst (λ t. length t ≤ length s) e (length-skip_space s) in
    elim (Bool-cases (is_op c)) [
      | inl o ↦ rw (round_op room argv s c r e o) (shorter, omega arith, h, inr o)
      | inr o ↦ elim (Bool-cases (is_symbol c)) [
        | inl sy ↦ rw (round_symbol room argv s c r e sy o) (ground arith)
        | inr sy ↦
            let plain : IsWordChar c = ground (arith, space_no room argv s c r e) in
            let w = word_of (c ∷ r) in
            rw (round_word room argv s c r e sy o) (
              exec_loop_next room argv s c r plain h shorter (λ p.
                ih (argv ++ (w ∷ [])) (rest_after (c ∷ r)) p
                  (All-snoc argv w h (word_of-IsWord c r plain))))
      ]
    ]

exec_loop_lem :
    (room : ℕ) (argv : List Text) (s : Text)
    → 0 < room
    → All IsWord argv
    → ExecFine (length s) (length argv + room) (exec_loop room argv s)
exec_loop_lem zero argv s pos h = absurd (omega arith)
exec_loop_lem (suc room) argv s pos h =
    exec_loop_round room argv s (skip_space s) h (λ ws r p hw. exec_loop_lem room ws r p hw) refl

-- `parseexec` stores at most nine words in `argv`, so the closing 0 fits; all are proper words.
pub parseexec_lem : (s : Text) → ExecFine (length s) maxargs (parseexec s)
unfolding parseexec
parseexec_lem s = exec_loop_lem maxargs [] s (omega arith) tt
