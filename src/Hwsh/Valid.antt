-- ===== src/Hwsh/Valid.antt =====
-- `parsecmd`: every line is parsed to a whole command, or reported, in bounded steps.
use cs.Base.{
  ℕ, zero, suc, ◌+◌, ◌*◌, ◌≤◌, ◌<◌, ◌≡◌, ◌≢◌, ◌⊎◌, inl, inr, refl, Bool, true, false, not, ◌&&◌,
  ◌||◌, List, [], ◌∷◌, arith, ◌==◌, if◌then◌else◌, length, Bool-cases, ==_iff, All,
}
use cs.Hwsh.{
  Text, maxargs, is_op, semicolon, ampersand, Cmd, exec, sequence, parallel, bad, wild, State,
  Parse, done, exits, out_of_fuel, skip_space, starts, peek, gettoken, token_at, parseexec,
  after_exec, parseparallel, parallel_fuel, sequence_rest, parsesequence, parseline, finish,
  parsecmd, at_end, ◌>>=◌,
}
use cs.Hwsh.Args.{IsWord, ExecFine, parseexec_lem, length-skip_space, length-after_word, skip-skip}

-- A command with no part that was never assigned, whose words are proper and leave room in `argv`
-- for the closing 0.
abbrev pub IsWhole : Cmd → Type 0
IsWhole (exec argv) = (length argv < maxargs) × All IsWord argv
IsWhole (sequence c d) = IsWhole c × IsWhole d
IsWhole (parallel c d) = IsWhole c × IsWhole d
IsWhole bad = ⊥
IsWhole wild = ⊥

-- A parser that starts with `n` bytes left returns a whole command or has set `invalid`.
abbrev pub Fine : ℕ → Parse (Cmd × State) → Type 0
Fine n (done q) = (length q.1.rest ≤ n) × ((q.1.invalid ≡ true) ⊎ IsWhole q.0)
Fine n (exits e) = e ≢ out_of_fuel

Fine-exec :
    (n : ℕ) (m : Parse (List Text × Text)) (f : List Text × Text → Parse (Cmd × State))
    → ExecFine n maxargs m
    → ((q : List Text × Text) → ExecFine n maxargs (done q) → Fine n (f q))
    → Fine n (m >>= f)
Fine-exec n (done q) f h k = k q h
Fine-exec n (exits e) f h k = h

Fine-bind :
    (n : ℕ) (m : Parse (Cmd × State)) (f : Cmd × State → Parse (Cmd × State))
    → Fine n m
    → ((q : Cmd × State) → Fine n (done q) → Fine n (f q))
    → Fine n (m >>= f)
Fine-bind n (done q) f h k = k q h
Fine-bind n (exits e) f h k = h

Fine-weaken : (m n : ℕ) (r : Parse (Cmd × State)) → m ≤ n → Fine m r → Fine n r
Fine-weaken m n (done q) le h = (omega (arith, h.0), h.1)
Fine-weaken m n (exits e) le h = h

pub length-peek : (toks : ℕ → Bool) (s : Text) → length (peek toks s).1 ≤ length s
unfolding peek
length-peek toks s = length-skip_space s

length-token_at : (s : Text) → length (token_at s).1 ≤ length s
unfolding token_at
length-token_at [] = omega arith
length-token_at (c ∷ s) = ground (arith, length-after_word (c ∷ s))

pub length-gettoken : (s : Text) → length (gettoken s).1 ≤ length s
unfolding gettoken
length-gettoken s = omega (
  arith,
  length-skip_space (token_at (skip_space s)).1,
  length-token_at (skip_space s),
  length-skip_space s,
)

token_at-op :
    (t : Text) (op : ℕ)
    → is_op op ≡ true
    → starts (λ c. c == op) t ≡ true
    → length (token_at t).1 < length t
unfolding token_at
token_at-op [] op o h = cc
token_at-op (c ∷ t) op o h =
    let e : c ≡ op = (==_iff c op).0 h in let oc : is_op c ≡ true = rw e o in rw oc (omega arith)

-- An operator that `peek` has seen is consumed.
pub gettoken-op :
    (s : Text) (op : ℕ)
    → is_op op ≡ true
    → (peek (λ c. c == op) s).0 ≡ true
    → length (gettoken (peek (λ c. c == op) s).1).1 < length s
unfolding gettoken peek
gettoken-op s op o h =
    let t = skip_space s in
    rw (skip-skip s)
      (omega (arith, token_at-op t op o h, length-skip_space (token_at t).1, length-skip_space s))

-- What `parseparallel` may still consume: each byte, and the wait for a command once more.
abbrev pub work : State → ℕ
work st = length st.rest * 2 + (if st.expecting then 1 else 0)

-- A command in front of what `more` returns.
Fine-parallel :
    (n m : ℕ) (cmd : Cmd) (r : Parse (Cmd × State))
    → IsWhole cmd
    → m ≤ n
    → Fine m r
    → Fine n (r >>= λ q. done (parallel cmd q.0, q.1))
Fine-parallel n m cmd (done q) whole le h =
    (omega (arith, h.0), elim h.1 [ inl i ↦ inl i | inr w ↦ inr (whole, w) ])
Fine-parallel n m cmd (exits e) whole le h = h

-- The tests of `parseparallel`: where it goes on after an operator it has seen one, and where it
-- goes on without one it was waiting for this command.
seen_op : (i h e : Bool) → ((not i && h) || e) ≡ true → (h || not e) ≡ true → h ≡ true
seen_op i h e a b = ground arith

was_waiting : (i h e : Bool) → ((not i && h) || e) ≡ true → (h || not e) ≡ false → e ≡ true
was_waiting i h e a b = ground arith

-- After a command, the rest is parsed by `more`.
after_exec_lem :
    (more : State → Parse (Cmd × State)) (st : State) (cmd : Cmd) (r : Text)
    → length r ≤ length st.rest
    → IsWhole cmd
    → ((u : State) → work u < work st → Fine (length u.rest) (more u))
    → Fine (length st.rest) (after_exec more st cmd r)
unfolding after_exec
after_exec_lem more st cmd r le whole ih =
    let has = (peek (λ c. c == ampersand) r).0 in
    let r2 = (peek (λ c. c == ampersand) r).1 in
    let r3 = (gettoken r2).1 in
    let r4 = (peek (λ c. c == semicolon) r3).1 in
    let l2 = length-peek (λ c. c == ampersand) r in
    let l4 = length-peek (λ c. c == semicolon) r3 in
    elim (Bool-cases ((not st.invalid && has) || st.expecting)) [
      | inr e ↦ rw e (omega (arith, l2), inr whole)
      | inl e ↦ elim (Bool-cases (has || not st.expecting)) [
        | inr f ↦
            let waiting : st.expecting ≡ true = was_waiting st.invalid has st.expecting e f in
            let work_le : length r2 * 2 + 0 < work st = ground (arith, l2) in
            rw (e, f)
              (Fine-parallel (length st.rest) (length r2) cmd _ whole (omega (arith, l2))
                (ih (record { rest = r2; invalid = st.invalid; expecting = false }) work_le))
        | inl f ↦
            let seen : has ≡ true = seen_op st.invalid has st.expecting e f in
            let l3 = gettoken-op r ampersand refl seen in
            elim (Bool-cases (peek (λ c. c == semicolon) r3).0) [
              | inl semi ↦ rw (e, f, semi) (omega (arith, l3, l4), inl refl)
              | inr semi ↦
                  let work_le : length r4 * 2 + 1 < work st = omega (arith, l3, l4) in
                  rw (e, f, semi)
                    (Fine-parallel (length st.rest) (length r4) cmd _ whole (omega (arith, l3, l4))
                      (ih (record { rest = r4; invalid = st.invalid; expecting = true }) work_le))
            ]
      ]
    ]

parseparallel_lem :
    (fuel : ℕ) (st : State) → work st < fuel → Fine (length st.rest) (parseparallel fuel st)
unfolding parseparallel
parseparallel_lem zero st h = absurd (omega arith)
parseparallel_lem (suc fuel) st h = elim (Bool-cases (st.expecting && at_end st.rest)) [
  | inl e ↦ rw e (omega arith, inl refl)
  | inr e ↦ rw e (
      Fine-exec (length st.rest) (parseexec st.rest) _ (parseexec_lem st.rest) (λ q f.
        after_exec_lem (parseparallel fuel) st (exec q.0) q.1 f.0 (f.1, f.2)
          (λ u less. parseparallel_lem fuel u (omega arith))))
]

enough_fuel : (st : State) → work st < parallel_fuel st.rest
enough_fuel st = ground arith

Fine-sequence :
    (n m : ℕ) (cmd : Cmd) (r : Parse (Cmd × State))
    → IsWhole cmd
    → m ≤ n
    → Fine m r
    → Fine n (r >>= λ q. done (sequence cmd q.0, q.1))
Fine-sequence n m cmd (done q) whole le h =
    (omega (arith, h.0), elim h.1 [ inl i ↦ inl i | inr w ↦ inr (whole, w) ])
Fine-sequence n m cmd (exits e) whole le h = h

after_sequence :
    (more : State → Parse (Cmd × State)) (n : ℕ) (cmd : Cmd) (m : State)
    → ((u : State) → length u.rest < n → Fine (length u.rest) (more u))
    → Fine n (done (cmd, m))
    → Fine n (sequence_rest more (cmd, m))
unfolding sequence_rest
after_sequence more n cmd m ih h =
    let r = (peek (λ c. c == semicolon) m.rest).1 in
    let l = length-peek (λ c. c == semicolon) m.rest in
    elim (Bool-cases m.invalid) [
      | inl e ↦ rw e (h.0, inl refl)
      | inr e ↦
          let whole : IsWhole cmd = elim h.1 [ inl i ↦ absurd (cc (i, e)) | inr w ↦ w ] in
          elim (Bool-cases (peek (λ c. c == semicolon) m.rest).0) [
            | inl semi ↦
                let l3 = gettoken-op m.rest semicolon refl semi in
                rw (e, semi)
                  (Fine-sequence n (length (gettoken r).1) cmd _ whole (omega (arith, h.0, l3)) (
                    ih (record { rest = (gettoken r).1; invalid = false; expecting = m.expecting })
                      (omega (arith, h.0, l3))))
            | inr semi ↦ rw (e, semi) (omega (arith, h.0, l), inr whole)
          ]
    ]

parseline_lem :
    (fuel : ℕ) (st : State) → length st.rest < fuel → Fine (length st.rest) (parseline fuel st)
unfolding parseline parsesequence
parseline_lem zero st h = absurd (omega arith)
parseline_lem (suc fuel) st h =
    let r = (peek (λ c. c == ampersand) st.rest).1 in
    let l = length-peek (λ c. c == ampersand) st.rest in
    let st' : State = record { rest = r; invalid = false; expecting = st.expecting } in
    elim (Bool-cases (peek (λ c. c == ampersand) st.rest).0) [
      | inl e ↦ rw e (l, inl refl)
      | inr e ↦ rw e (
          Fine-bind (length st.rest) (parseparallel (parallel_fuel r) st')
            (sequence_rest (parseline fuel))
            (Fine-weaken (length r) (length st.rest) _ l
              (parseparallel_lem (parallel_fuel r) st' (enough_fuel st')))
            (λ q f.
              after_sequence (parseline fuel) (length st.rest) q.0 q.1
                (λ u less. parseline_lem fuel u (omega arith)) f))
    ]

-- What a line is parsed to: the command that reports an error, or a whole command.
abbrev pub IsParsed : Parse Cmd → Type 0
IsParsed (done c) = (c ≡ bad) ⊎ IsWhole c
IsParsed (exits e) = e ≢ out_of_fuel

finish_exec :
    (r : Parse (List Text × Text)) (n : ℕ) → ExecFine n maxargs r → IsParsed (r >>= λ _. done bad)
finish_exec (done q) n h = inl refl
finish_exec (exits e) n h = h

finish_lem : (n : ℕ) (q : Cmd × State) → Fine n (done q) → IsParsed (finish q)
unfolding finish
finish_lem n (cmd, st) h = elim (Bool-cases st.invalid) [
  | inl e ↦ rw e (finish_exec (parseexec st.rest) (length st.rest) (parseexec_lem st.rest))
  | inr e ↦
      let whole : IsWhole cmd = elim h.1 [ inl i ↦ absurd (cc (i, e)) | inr w ↦ w ] in
      elim (Bool-cases (at_end (peek (λ c. false) st.rest).1)) [
        | inl a ↦ rw (e, a) (inr whole)
        | inr a ↦ rw (e, a) (ground arith)
      ]
]

finish-bind : (n : ℕ) (r : Parse (Cmd × State)) → Fine n r → IsParsed (r >>= finish)
finish-bind n (done q) h = finish_lem n q h
finish-bind n (exits e) h = h

-- Parsing of any line ends within the fuel that the model gives it. If it returns a command, then
-- that is the command that reports an error or one in which every `cmd` variable was assigned,
-- every word is not empty and without white space and symbols, and no `argv` has more than nine
-- words; if not, the process exits with a message.
pub parsecmd_lem : (s : Text) → IsParsed (parsecmd s)
unfolding parsecmd
parsecmd_lem s =
    let st : State = record { rest = s; invalid = false; expecting = false } in
    finish-bind (length s) (parseline (length s + 1) st)
      (parseline_lem (length s + 1) st (omega arith))
