-- ===== src/Sh/Checks.antt =====
-- The line "(ls a <f )|a &;" is a list whose second command is empty.
use os2025_assignment.Base.{◌≡◌, refl, [], ◌∷◌, arith}
use os2025_assignment.Machine.{ok}
use os2025_assignment.Sh.{execcmd, redircmd, pipecmd, listcmd, backcmd, parsecmd}
use os2025_assignment.Sh.Syntax.{
  Word, input, Line, last, sequence, one, into, block, simple, line_text, pipe_text, exec_text,
  line_command, pipe_command, exec_command,
}
use os2025_assignment.Sh.Parse.{parsecmd-line_text}

abbrev ls : Word
ls = record { first = b'l'; more = b's' ∷ []; plain = refl }

abbrev a : Word
a = record { first = b'a'; more = []; plain = refl }

abbrev f : Word
f = record { first = b'f'; more = []; plain = refl }

abbrev sentence : Line
sentence =
    sequence
      (into (block (last (one (simple [] ((ls, []) ∷ (a, input f ∷ []) ∷ []) (omega arith))) 0) [])
        (one (simple [] ((a, []) ∷ []) (omega arith))))
      1 (last (one (simple [] [] (omega arith))) 0)

parsecmd-line_text_example :
    parsecmd (
      b'(' ∷ b'l' ∷ b's' ∷ 32 ∷ b'a' ∷ 32 ∷ b'<' ∷ b'f' ∷ 32 ∷ b')' ∷ b'|' ∷ b'a' ∷ 32 ∷ b'&' ∷ b';'
      ∷ [])
    ≡ ok
        (listcmd
          (backcmd (
            pipecmd
              (redircmd (execcmd ((b'l' ∷ b's' ∷ []) ∷ (b'a' ∷ []) ∷ [])) (b'f' ∷ []) 0 0)
              (execcmd ((b'a' ∷ []) ∷ []))))
          (execcmd []))
        []
unfolding line_text pipe_text exec_text line_command pipe_command exec_command
parsecmd-line_text_example = parsecmd-line_text sentence
