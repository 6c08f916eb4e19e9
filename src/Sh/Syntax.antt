-- ===== src/Sh/Syntax.antt =====
-- The command language: its sentences, how they are written, and the commands that they mean. A word
-- is written with a space behind it, and a symbol with none.
use os2025_assignment.Base.{ℕ, zero, suc, ◌<◌, ◌≡◌, Bool, true, ◌&&◌, List, [], ◌∷◌, ◌++◌, length}
use os2025_assignment.Sh.{
  Text, Command, execcmd, redircmd, pipecmd, listcmd, backcmd, is_plain, maxargs,
}

abbrev pub all_plain : Text → Bool
all_plain [] = true
all_plain (c ∷ s) = is_plain c && all_plain s

pub record Word : Type 0 where
  pub first : ℕ
  pub more : Text
  pub plain : all_plain (first ∷ more) ≡ true

pub data Redir : Type 0 where
  input output appended : Word → Redir

-- Behind a pipeline stands a number of `&`. A command in parentheses has redirections behind it, and
-- any other has them in front of its arguments and behind each of them.
mutual
  pub data Line : Type 0 where
    last : Pipe → ℕ → Line
    sequence : Pipe → ℕ → Line → Line

  pub data Pipe : Type 0 where
    one : Exec → Pipe
    into : Exec → Pipe → Pipe

  pub data Exec : Type 0 where
    block : Line → List Redir → Exec
    simple : List Redir → (args : List (Word × List Redir)) → length args < maxargs → Exec

abbrev pub bytes : Word → Text
bytes w = w.first ∷ w.more

-- Each of these writes a part in front of the rest of the line.
abbrev pub word_text : Word → Text → Text
word_text w rest = bytes w ++ (32 ∷ rest)

abbrev pub redir_text : Redir → Text → Text
redir_text (input w) rest = b'<' ∷ word_text w rest
redir_text (output w) rest = b'>' ∷ word_text w rest
redir_text (appended w) rest = b'>' ∷ b'>' ∷ word_text w rest

abbrev pub redirs_text : List Redir → Text → Text
redirs_text [] rest = rest
redirs_text (r ∷ rs) rest = redir_text r (redirs_text rs rest)

abbrev pub args_text : List (Word × List Redir) → Text → Text
args_text [] rest = rest
args_text ((w, rs) ∷ args) rest = word_text w (redirs_text rs (args_text args rest))

abbrev pub backs_text : ℕ → Text → Text
backs_text zero rest = rest
backs_text (suc n) rest = b'&' ∷ backs_text n rest

unfoldable mutual
  pub line_text : Line → Text → Text
  line_text (last p n) rest = pipe_text p (backs_text n rest)
  line_text (sequence p n l) rest = pipe_text p (backs_text n (b';' ∷ line_text l rest))

  pub pipe_text : Pipe → Text → Text
  pipe_text (one e) rest = exec_text e rest
  pipe_text (into e p) rest = exec_text e (b'|' ∷ pipe_text p rest)

  pub exec_text : Exec → Text → Text
  exec_text (block l rs) rest = b'(' ∷ line_text l (b')' ∷ redirs_text rs rest)
  exec_text (simple rs args h) rest = redirs_text rs (args_text args rest)

-- O_RDONLY, O_WRONLY|O_CREATE|O_TRUNC, O_WRONLY|O_CREATE
abbrev pub redirected : Command → Redir → Command
redirected cmd (input w) = redircmd cmd (bytes w) 0 0
redirected cmd (output w) = redircmd cmd (bytes w) 1537 1
redirected cmd (appended w) = redircmd cmd (bytes w) 513 1

-- The last redirection is the outermost.
abbrev pub wrap : Command → List Redir → Command
wrap cmd [] = cmd
wrap cmd (r ∷ rs) = wrap (redirected cmd r) rs

abbrev pub arg_bytes : List (Word × List Redir) → List Text
arg_bytes [] = []
arg_bytes ((w, rs) ∷ args) = bytes w ∷ arg_bytes args

abbrev pub arg_redirs : List (Word × List Redir) → List Redir
arg_redirs [] = []
arg_redirs ((w, rs) ∷ args) = rs ++ arg_redirs args

abbrev pub backs : ℕ → Command → Command
backs zero cmd = cmd
backs (suc n) cmd = backs n (backcmd cmd)

unfoldable mutual
  pub line_command : Line → Command
  line_command (last p n) = backs n (pipe_command p)
  line_command (sequence p n l) = listcmd (backs n (pipe_command p)) (line_command l)

  pub pipe_command : Pipe → Command
  pipe_command (one e) = exec_command e
  pipe_command (into e p) = pipecmd (exec_command e) (pipe_command p)

  pub exec_command : Exec → Command
  exec_command (block l rs) = wrap (line_command l) rs
  exec_command (simple rs args h) = wrap (execcmd (arg_bytes args)) (rs ++ arg_redirs args)
