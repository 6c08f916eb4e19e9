-- ===== src/Sh.antt =====
-- The command parser of user/sh.c. The state is the line from `*ps` to `es`, which holds no zero
-- byte; `panic` is a syntax error. `nulterminate` ends each string of a command where its token ends,
-- so that an argument is the list of the bytes of its token.
pub mod Syntax
pub mod Tokens
pub mod Args
pub mod Lines
pub mod Parse
mod Checks
use os2025_assignment.Base.{
  ℕ, zero, suc, ◌+◌, ◌*◌, Bool, true, false, not, ◌&&◌, ◌||◌, List, [], ◌∷◌, ◌++◌, leb, ltb, ◌==◌,
  ◌/=◌, if◌then◌else◌, length,
}
use os2025_assignment.Machine.{Cmd, Void, pure, fail, gets, modify, when, ◌>>=◌, ◌>>◌}

abbrev pub Text : Type 0
Text = List ℕ

-- `redir` has the file, the mode and the descriptor.
pub data Command : Type 0 where
  execcmd : List Text → Command
  redircmd : Command → Text → ℕ → ℕ → Command
  pipecmd : Command → Command → Command
  listcmd : Command → Command → Command
  backcmd : Command → Command

abbrev pub maxargs : ℕ
maxargs = 10

-- `strchr(set, c)` for a byte that is not 0
abbrev pub is_in : Text → ℕ → Bool
is_in [] c = false
is_in (x ∷ set) c = (c == x) || is_in set c

abbrev pub whitespace : Text
whitespace = 32 ∷ 9 ∷ 13 ∷ 10 ∷ 11 ∷ []

-- "<|>&;()"
abbrev pub symbols : Text
symbols = b'<' ∷ b'|' ∷ b'>' ∷ b'&' ∷ b';' ∷ b'(' ∷ b')' ∷ []

-- `while(s < es && strchr(whitespace, *s)) s++`
unfoldable pub skip_space : Text → Text
skip_space [] = []
skip_space (c ∷ s) = let rest = skip_space s in if is_in whitespace c then rest else c ∷ s

abbrev pub is_plain : ℕ → Bool
is_plain c = not (is_in whitespace c) && not (is_in symbols c)

-- the bytes before the next space or symbol, and the rest
unfoldable pub split_word : Text → Text × Text
split_word [] = ([], [])
split_word (c ∷ s) =
    let rest = split_word s in if is_plain c then (c ∷ rest.0, rest.1) else ([], c ∷ s)

-- the kind of a word, which no symbol has
abbrev pub word : ℕ
word = b'a'

-- the token `>>`, as `ret` has it
abbrev pub append : ℕ
append = b'+'

-- behind a '>'
abbrev pub split_append : Text → ℕ × Text × Text
split_append [] = (b'>', b'>' ∷ [], [])
split_append (c ∷ s) = if c == b'>' then (append, b'>' ∷ b'>' ∷ [], s) else (b'>', b'>' ∷ [], c ∷ s)

-- the kind, the bytes from `*q` to `*eq`, and the rest
unfoldable pub split_token : Text → ℕ × Text × Text
split_token [] = (0, [], [])
split_token (c ∷ s) =
    if c == b'>'
    then split_append s
    else if is_in (b'|' ∷ b'(' ∷ b')' ∷ b';' ∷ b'&' ∷ b'<' ∷ []) c
    then (c, c ∷ [], s)
    else (word, (split_word (c ∷ s)).0, (split_word (c ∷ s)).1)

-- the kind of the token and its bytes
unfoldable pub gettoken : Cmd Text (ℕ × Text)
gettoken s =
    let (kind, bytes, rest) = split_token (skip_space s) in pure (kind, bytes) (skip_space rest)

abbrev pub starts_in : Text → Text → Bool
starts_in toks [] = false
starts_in toks (c ∷ s) = is_in toks c

unfoldable pub peek : Text → Cmd Text Bool
peek toks s = pure (starts_in toks (skip_space s)) (skip_space s)

-- O_RDONLY, O_WRONLY|O_CREATE|O_TRUNC and O_WRONLY|O_CREATE
abbrev pub redirect : ℕ → Command → Text → Command
redirect tok cmd file =
    if tok == b'<'
    then redircmd cmd file 0 0
    else if tok == b'>'
    then redircmd cmd file 1537 1
    else if tok == append
    then redircmd cmd file 513 1
    else cmd

-- A round takes a byte off the line at least.
unfoldable pub redirs_loop : ℕ → Command → Cmd Text Command
redirs_loop zero cmd = pure cmd
redirs_loop (suc fuel) cmd = do
  more ← peek (b'<' ∷ b'>' ∷ [])
  if not more then pure cmd else do
    tok ← gettoken
    file ← gettoken
    if file.0 /= word then fail else redirs_loop fuel (redirect (tok.0) cmd (file.1))

unfoldable pub parseredirs : Command → Cmd Text Command
parseredirs cmd s = redirs_loop (length s) cmd s

-- `cmd->argv[argc] = q`: the redirections around the command stay.
abbrev pub add_arg : Command → Text → Command
add_arg (execcmd argv) arg = execcmd (argv ++ (arg ∷ []))
add_arg (redircmd cmd file mode fd) arg = redircmd (add_arg cmd arg) file mode fd
add_arg (pipecmd left right) arg = pipecmd left right
add_arg (listcmd left right) arg = listcmd left right
add_arg (backcmd cmd) arg = backcmd cmd

-- the loop over the arguments
unfoldable pub args_loop : ℕ → ℕ → Command → Cmd Text Command
args_loop zero argc ret = pure ret
args_loop (suc fuel) argc ret = do
  stop ← peek (b'|' ∷ b')' ∷ b'&' ∷ b';' ∷ [])
  if stop then pure ret else do
    tok ← gettoken
    if tok.0 == 0
        then pure ret
        else if tok.0 /= word
        then fail
        else if leb maxargs (argc + 1)
        then fail
        else do ret' ← parseredirs (add_arg ret (tok.1)); args_loop fuel (argc + 1) ret'

-- the loop over the `&`
unfoldable pub back_loop : ℕ → Command → Cmd Text Command
back_loop zero cmd = pure cmd
back_loop (suc fuel) cmd = do
  more ← peek (b'&' ∷ [])
  if not more then pure cmd else do _ ← gettoken; back_loop fuel (backcmd cmd)

-- The fuel bounds the depth of the calls.
unfoldable mutual
  pub parseline : ℕ → Cmd Text Command
  parseline zero = fail
  parseline (suc fuel) = do
    cmd ← parsepipe fuel
    cmd' ← λ s. back_loop (length s) cmd s
    more ← peek (b';' ∷ [])
    if not more
        then pure cmd'
        else do _ ← gettoken; right ← parseline fuel; pure (listcmd cmd' right)

  pub parsepipe : ℕ → Cmd Text Command
  parsepipe zero = fail
  parsepipe (suc fuel) = do
    cmd ← parseexec fuel
    more ← peek (b'|' ∷ [])
    if not more then pure cmd else do _ ← gettoken; right ← parsepipe fuel; pure (pipecmd cmd right)

  pub parseblock : ℕ → Cmd Text Command
  parseblock zero = fail
  parseblock (suc fuel) = do
    open_ ← peek (b'(' ∷ [])
    if not open_ then fail else do
      _ ← gettoken
      cmd ← parseline fuel
      close ← peek (b')' ∷ [])
      if not close then fail else do _ ← gettoken; parseredirs cmd

  pub parseexec : ℕ → Cmd Text Command
  parseexec zero = fail
  parseexec (suc fuel) = do
    block ← peek (b'(' ∷ [])
    if block
        then parseblock fuel
        else do ret ← parseredirs (execcmd []); λ s. args_loop (length s + 1) 0 ret s

unfoldable pub parsecmd : Cmd Text Command
parsecmd s =
    (do
      cmd ← parseline (3 * length s + 3)
      _ ← peek []
      left ← gets length
      if left /= 0 then fail else pure cmd)
      s
