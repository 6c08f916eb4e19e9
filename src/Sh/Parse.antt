-- ===== src/Sh/Parse.antt =====
-- `parsecmd` reads every sentence of the command language.
use os2025_assignment.Base.{
  ℕ, zero, suc, ◌+◌, ◌*◌, ◌≤◌, ◌<◌, ◌≡◌, refl, true, false, List, [], ◌∷◌, ◌++◌, length, arith,
}
use os2025_assignment.Machine.{ok}
use os2025_assignment.Sh.{
  Text, Command, execcmd, starts_in, back_loop, parseline, parsepipe, parseblock, parseexec,
  parsecmd, maxargs,
}
use os2025_assignment.Sh.Syntax.{
  Word, Redir, Line, last, sequence, Pipe, one, into, Exec, block, simple, redirs_text, args_text,
  backs_text, line_text, pipe_text, exec_text, wrap, backs, line_command, pipe_command,
  exec_command, arg_bytes, arg_redirs,
}
use os2025_assignment.Sh.Tokens.{no_space, peek_lem, gettoken-symbol}
use os2025_assignment.Sh.Args.{
  stops, ends, stops_is, args_is, redirs-no_space, parseredirs_lem, args_loop_lem,
  length-redirs_text,
}
use os2025_assignment.Sh.Lines.{
  closers, enders, closers_is, enders_is, backs_is, pipe-no_space, line-no_space, back_loop_lem,
  length-backs_text, length-args_text, not_open,
}

-- the depth of the calls
unfoldable mutual
  size_line : Line → ℕ
  size_line (last p n) = 1 + size_pipe p
  size_line (sequence p n l) = 1 + size_pipe p + size_line l

  size_pipe : Pipe → ℕ
  size_pipe (one e) = 1 + size_exec e
  size_pipe (into e p) = 1 + size_exec e + size_pipe p

  size_exec : Exec → ℕ
  size_exec (block l rs) = 2 + size_line l
  size_exec (simple rs args h) = 1

back_loop_all :
    (n : ℕ) (cmd : Command) (rest : Text)
    → no_space rest ≡ true
    → starts_in (b'&' ∷ []) rest ≡ false
    → back_loop (length (backs_text n rest)) cmd (backs_text n rest) ≡ ok (backs n cmd) rest
back_loop_all n cmd rest h e =
    back_loop_lem n (length (backs_text n rest)) cmd rest (omega (arith, length-backs_text n rest))
      h e

-- the arguments of a command without parentheses
simple_lem :
    (rs : List Redir) (args : List (Word × List Redir)) (fuel : ℕ) (rest : Text)
    → length args < maxargs
    → ends stops rest ≡ true
    → parseexec (suc fuel) (redirs_text rs (args_text args rest))
      ≡ ok (wrap (execcmd (arg_bytes args)) (rs ++ arg_redirs args)) rest
unfolding parseexec
simple_lem rs args fuel rest l h =
    let (no_sp, no_arrow, no_open) = args_is args rest h in
    rw
      (
        peek_lem (b'(' ∷ []) (redirs_text rs (args_text args rest))
            (redirs-no_space rs (args_text args rest) no_sp),
        not_open rs (args_text args rest) no_open,
        parseredirs_lem (execcmd []) rs (args_text args rest) no_sp no_arrow,
      )
      (args_loop_lem args (length (args_text args rest) + 1) 0 [] rs rest (omega arith)
        (omega (arith, length-args_text args rest)) h)

mutual
  unfolding size_line size_pipe size_exec line_text pipe_text exec_text line_command pipe_command
      exec_command parseline parsepipe parseblock parseexec

  parseline_lem :
      (l : Line) (fuel : ℕ) (rest : Text)
      → size_line l ≤ fuel
      → ends closers rest ≡ true
      → parseline fuel (line_text l rest) ≡ ok (line_command l) rest
  parseline_lem (last p n) zero rest h e = absurd (omega arith)
  parseline_lem (last p n) (suc fuel) rest h e =
      let (e1, no_sp, no_and, no_semi) = closers_is rest e in
      rw
        (
          parsepipe_lem p fuel (backs_text n rest) (omega arith) (backs_is n rest e1),
          back_loop_all n (pipe_command p) rest no_sp no_and,
          peek_lem (b';' ∷ []) rest no_sp,
          no_semi,
        )
        refl
  parseline_lem (sequence p n l) zero rest h e = absurd (omega arith)
  parseline_lem (sequence p n l) (suc fuel) rest h e =
      rw
        (
          parsepipe_lem p fuel (backs_text n (b';' ∷ line_text l rest)) (omega arith)
              (backs_is n (b';' ∷ line_text l rest) refl),
          back_loop_all n (pipe_command p) (b';' ∷ line_text l rest) refl refl,
          peek_lem (b';' ∷ []) (b';' ∷ line_text l rest) refl,
          gettoken-symbol b';' (line_text l rest) refl (line-no_space l rest e),
          parseline_lem l fuel rest (omega arith) e,
        )
        refl

  parsepipe_lem :
      (p : Pipe) (fuel : ℕ) (rest : Text)
      → size_pipe p ≤ fuel
      → ends enders rest ≡ true
      → parsepipe fuel (pipe_text p rest) ≡ ok (pipe_command p) rest
  parsepipe_lem (one x) zero rest h e = absurd (omega arith)
  parsepipe_lem (one x) (suc fuel) rest h e =
      let (e1, no_sp, no_bar) = enders_is rest e in
      rw (parseexec_lem x fuel rest (omega arith) e1, peek_lem (b'|' ∷ []) rest no_sp, no_bar) refl
  parsepipe_lem (into x p) zero rest h e = absurd (omega arith)
  parsepipe_lem (into x p) (suc fuel) rest h e =
      rw
        (
          parseexec_lem x fuel (b'|' ∷ pipe_text p rest) (omega arith) refl,
          peek_lem (b'|' ∷ []) (b'|' ∷ pipe_text p rest) refl,
          gettoken-symbol b'|' (pipe_text p rest) refl (pipe-no_space p rest (enders_is rest e).0),
          parsepipe_lem p fuel rest (omega arith) e,
        )
        refl

  parseexec_lem :
      (x : Exec) (fuel : ℕ) (rest : Text)
      → size_exec x ≤ fuel
      → ends stops rest ≡ true
      → parseexec fuel (exec_text x rest) ≡ ok (exec_command x) rest
  parseexec_lem (simple rs args l) zero rest h e = absurd (omega arith)
  parseexec_lem (simple rs args l) (suc fuel) rest h e = simple_lem rs args fuel rest l e
  parseexec_lem (block l rs) zero rest h e = absurd (omega arith)
  parseexec_lem (block l rs) (suc zero) rest h e = absurd (omega arith)
  parseexec_lem (block l rs) (suc (suc fuel)) rest h e =
      let (no_sp, no_arrow, _) = stops_is rest e in
      let behind = b')' ∷ redirs_text rs rest in
      rw
        (
          peek_lem (b'(' ∷ []) (b'(' ∷ line_text l behind) refl,
          peek_lem (b'(' ∷ []) (b'(' ∷ line_text l behind) refl,
          gettoken-symbol b'(' (line_text l behind) refl (line-no_space l behind refl),
          parseline_lem l fuel behind (omega arith) refl,
          peek_lem (b')' ∷ []) behind refl,
          gettoken-symbol b')' (redirs_text rs rest) refl (redirs-no_space rs rest no_sp),
          parseredirs_lem (line_command l) rs rest no_sp no_arrow,
        )
        refl

mutual
  unfolding size_line size_pipe size_exec line_text pipe_text exec_text

  size_line-le :
      (l : Line) (rest : Text) → size_line l + 3 * length rest ≤ 3 * length (line_text l rest) + 3
  size_line-le (last p n) rest =
      omega (arith, size_pipe-le p (backs_text n rest), length-backs_text n rest)
  size_line-le (sequence p n l) rest = omega (
    arith,
    size_pipe-le p (backs_text n (b';' ∷ line_text l rest)),
    length-backs_text n (b';' ∷ line_text l rest),
    size_line-le l rest,
  )

  size_pipe-le :
      (p : Pipe) (rest : Text) → size_pipe p + 3 * length rest ≤ 3 * length (pipe_text p rest) + 2
  size_pipe-le (one e) rest = omega (arith, size_exec-le e rest)
  size_pipe-le (into e p) rest =
      omega (arith, size_exec-le e (b'|' ∷ pipe_text p rest), size_pipe-le p rest)

  size_exec-le :
      (e : Exec) (rest : Text) → size_exec e + 3 * length rest ≤ 3 * length (exec_text e rest) + 1
  size_exec-le (block l rs) rest =
      omega (arith, size_line-le l (b')' ∷ redirs_text rs rest), length-redirs_text rs rest)
  size_exec-le (simple rs args h) rest =
      omega (arith, length-redirs_text rs (args_text args rest), length-args_text args rest)

-- The parser reads every sentence of the command language, with up to nine arguments in a command
-- and one space behind each word and none elsewhere: from the line as it is written it makes the
-- command that the sentence means. The depth of the calls that its fuel allows is enough.
pub parsecmd-line_text : (l : Line) → parsecmd (line_text l []) ≡ ok (line_command l) []
unfolding parsecmd
parsecmd-line_text l =
    rw
      (
        parseline_lem l (3 * length (line_text l []) + 3) [] (omega (arith, size_line-le l []))
            refl,
        peek_lem [] [] refl,
      )
      refl
