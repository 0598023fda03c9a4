-- ===== src/Hwsh/Tests.antt =====
-- Lines parsed as the shell of HW1 parses them.
use cs.Base.{◌≡◌, refl, [], ◌∷◌}
use Prim.Native.String.{String}
use Prim.Native.Char.{code}
use cs.Hwsh.{
  Text, Cmd, exec, sequence, parallel, bad, done, exits, too_many_args, is_space, is_symbol,
  skip_space, peek, word_of, after_word, token_at, gettoken, exec_loop, parseexec, after_exec,
  parseparallel, sequence_rest, parsesequence, parseline, finish, parsecmd,
}
use cs.Hwsh.Valid.{IsParsed, parsecmd_lem}

abbrev codes : String → Text
codes String.[] = []
codes (String.◌∷◌ c s) = code c ∷ codes s

abbrev echo : String → Cmd
echo n = exec (codes "echo" ∷ codes n ∷ [])

runs :
    (parsecmd (codes "echo 1;echo 2\n") ≡ done (sequence (echo "1") (echo "2")))
    × (parsecmd (codes "echo 1&echo 2")
        ≡ done (parallel (echo "1") (parallel (echo "2") (exec []))))
    × (parsecmd (codes "echo 1 &\n") ≡ done bad)
    × (parsecmd (codes "&") ≡ done bad)
    × (parsecmd (codes "echo 1;&echo 2") ≡ done bad)
    × (parsecmd (codes "a < b") ≡ exits too_many_args)
unfolding parsecmd finish parseline parsesequence sequence_rest parseparallel after_exec parseexec
    exec_loop gettoken token_at after_word word_of peek skip_space is_symbol is_space
runs = (refl, refl, refl, refl, refl, refl)

parsecmd_lem_example : IsParsed (parsecmd (codes "echo 1  &echo 2; echo 3"))
parsecmd_lem_example = parsecmd_lem (codes "echo 1  &echo 2; echo 3")
