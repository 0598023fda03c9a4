-- ===== src/Hwsh.antt =====
-- HW1/hwsh.c: the parser of the shell with `;` and `&`.
pub mod Args
pub mod Valid
mod Tests
use cs.Base.{
  ℕ, zero, suc, ◌+◌, ◌-◌, ◌*◌, Bool, true, false, not, ◌&&◌, ◌||◌, List, [], ◌∷◌, ◌++◌, ◌==◌,
  if◌then◌else◌, length,
}

abbrev pub maxargs : ℕ
maxargs = 10

-- The bytes from `*ps` up to `es`; none of them is 0, so the end of the list reads as 0.
abbrev pub Text : Type 0
Text = List ℕ

abbrev pub semicolon : ℕ
semicolon = b';'

abbrev pub ampersand : ℕ
ampersand = b'&'

pub is_space : ℕ → Bool
is_space c = c == 32 || c == 9 || c == 13 || c == 10 || c == 11

pub is_symbol : ℕ → Bool
is_symbol c = c == b'<' || c == b'|' || c == b'>' || c == semicolon || c == ampersand

abbrev pub is_op : ℕ → Bool
is_op c = c == semicolon || c == ampersand

-- A command. `bad` is the command of type -1 by which `parsecmd` reports a syntax error, and `wild`
-- the value of a `cmd` variable that was never assigned.
pub data Cmd : Type 0 where
  exec : List Text → Cmd
  sequence parallel : Cmd → Cmd → Cmd
  bad wild : Cmd

-- The calls of `exit(-1)`, and the end of the model's fuel, which is never reached.
pub data Exit : Type 0 where
  syntax_error too_many_args leftovers out_of_fuel : Exit

pub data Parse (A : Type 0) : Type 0 where
  done : A → Parse A
  exits : Exit → Parse A

infixl 5 ◌>>=◌
abbrev pub ◌>>=◌ : {A B : Type 0} → Parse A → (A → Parse B) → Parse B
done a >>= f = f a
exits e >>= f = exits e

-- `while (s < es && strchr(whitespace, *s)) s++;`
pub skip_space : Text → Text
skip_space [] = []
skip_space (c ∷ s) = let rest = skip_space s in if is_space c then rest else c ∷ s

abbrev pub starts : (ℕ → Bool) → Text → Bool
starts toks [] = false
starts toks (c ∷ s) = toks c

-- `peek`: whether a character of `toks` comes next, and `*ps`.
pub peek : (ℕ → Bool) → Text → Bool × Text
peek toks s = let r = skip_space s in (starts toks r, r)

-- The result of `gettoken`: 0, the operator, or 'a' with the word from `q` to `eq`.
pub data Token : Type 0 where
  stop : Token
  op : ℕ → Token
  word : Text → Token

pub word_of : Text → Text
word_of [] = []
word_of (c ∷ s) = let rest = word_of s in if is_space c || is_symbol c then [] else c ∷ rest

pub after_word : Text → Text
after_word [] = []
after_word (c ∷ s) = let rest = after_word s in if is_space c || is_symbol c then c ∷ s else rest

pub token_at : Text → Token × Text
token_at [] = (stop, [])
token_at (c ∷ s) = if is_op c then (op c, s) else (word (word_of (c ∷ s)), after_word (c ∷ s))

pub gettoken : Text → Token × Text
gettoken s = let (t, r) = token_at (skip_space s) in (t, skip_space r)

-- The loop of `parseexec`, with room for `maxargs - argc` more words.
pub exec_loop : ℕ → List Text → Text → Parse (List Text × Text)
exec_loop zero argv s = exits too_many_args
exec_loop (suc room) argv s =
    let (at_op, r) = peek is_op s in
    let (t, r') = gettoken r in
    if at_op then done (argv, r) else elim t [
      | stop ↦ done (argv, r')
      | op c ↦ exits syntax_error
      | word w ↦
          (let more = exec_loop room (argv ++ (w ∷ [])) r' in
            if room == 0 then exits too_many_args else more)
    ]

pub parseexec : Text → Parse (List Text × Text)
parseexec s = exec_loop maxargs [] s

-- `*ps` with the static variables `invalid` and `expectingParallel`.
pub record State : Type 0 where
  pub rest : Text
  pub invalid : Bool
  pub expecting : Bool

abbrev pub at_end : Text → Bool
at_end [] = true
at_end (c ∷ s) = false

-- What `parseparallel` does once it has read a command up to `r`, with `more` for its own call.
pub after_exec : (State → Parse (Cmd × State)) → State → Cmd → Text → Parse (Cmd × State)
after_exec more st cmd r =
    let (has_symbol, r2) = peek (λ c. c == ampersand) r in
    let ex = has_symbol || not st.expecting in
    let (t, r3) = gettoken r2 in
    let (semi, r4) = peek (λ c. c == semicolon) r3 in
    if (not st.invalid && has_symbol) || st.expecting
    then (if ex
        then (if semi
            then done (cmd, record { rest = r4; invalid = true; expecting = false })
            else (more (record { rest = r4; invalid = st.invalid; expecting = true }) >>= λ q.
                done (parallel cmd q.0, q.1)))
        else (more (record { rest = r2; invalid = st.invalid; expecting = false }) >>= λ q.
            done (parallel cmd q.0, q.1)))
    else done (cmd, record { rest = r2; invalid = st.invalid; expecting = st.expecting })

pub parseparallel : ℕ → State → Parse (Cmd × State)
parseparallel zero st = exits out_of_fuel
parseparallel (suc fuel) st =
    if st.expecting && at_end st.rest
    then done (wild, record { rest = st.rest; invalid = true; expecting = false })
    else (parseexec st.rest >>= λ q. after_exec (parseparallel fuel) st (exec q.0) q.1)

-- Each call of `parseparallel` consumes an operator, or ends the wait for a command.
abbrev pub parallel_fuel : Text → ℕ
parallel_fuel s = length s * 2 + 2

-- `parsesequence` after its call of `parseparallel`, and the whole of it, with `more` for the call
-- of `parseline` after a `;`.
pub sequence_rest : (State → Parse (Cmd × State)) → Cmd × State → Parse (Cmd × State)
sequence_rest more (cmd, m) =
    let (semi, r) = peek (λ c. c == semicolon) m.rest in
    let (t, r2) = gettoken r in
    if m.invalid
    then done (cmd, m)
    else if semi
    then (more (record { rest = r2; invalid = m.invalid; expecting = m.expecting }) >>= λ n.
        done (sequence cmd n.0, n.1))
    else done (cmd, record { rest = r; invalid = m.invalid; expecting = m.expecting })

pub parsesequence : (State → Parse (Cmd × State)) → State → Parse (Cmd × State)
parsesequence more st = parseparallel (parallel_fuel st.rest) st >>= sequence_rest more

pub parseline : ℕ → State → Parse (Cmd × State)
parseline zero st = exits out_of_fuel
parseline (suc fuel) st =
    let (amp, r) = peek (λ c. c == ampersand) st.rest in
    if amp
    then done (wild, record { rest = r; invalid = true; expecting = st.expecting })
    else parsesequence (parseline fuel)
        (record { rest = r; invalid = false; expecting = st.expecting })

-- The end of `parsecmd`, from what `parseline` returns.
pub finish : Cmd × State → Parse Cmd
finish (cmd, st) =
    let (_, r) = peek (λ c. false) st.rest in
    if st.invalid
    then (parseexec st.rest >>= λ _. done bad)
    else if at_end r
    then done cmd
    else exits leftovers

-- Each command line is parsed by a process of its own, so both static variables are 0 at first.
pub parsecmd : Text → Parse Cmd
parsecmd s =
    parseline (length s + 1) (record { rest = s; invalid = false; expecting = false }) >>= finish
