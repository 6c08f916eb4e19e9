-- ===== src/Sh/Args.antt =====
-- The loops over redirections and arguments.
use os2025_assignment.Base.{
  ℕ, zero, suc, ◌+◌, ◌≤◌, ◌<◌, ◌≡◌, refl, ◌∙◌, ap, ap₂, sym, Bool, true, false, List, [], ◌∷◌, ◌++◌,
  length, length-append, leb, arith,
}
use mathlib.Core.List.{append-nil, append_assoc}
use os2025_assignment.Machine.{ok}
use os2025_assignment.Sh.{
  Text, Command, execcmd, is_plain, is_in, gettoken, split_token, skip_space, starts_in,
  redirs_loop, parseredirs, add_arg, args_loop, maxargs,
}
use os2025_assignment.Sh.Syntax.{
  Word, Redir, input, output, appended, all_plain, bytes, word_text, redir_text, redirs_text,
  args_text, redirected, wrap, arg_bytes, arg_redirs,
}
use os2025_assignment.Sh.Tokens.{
  no_space, peek_lem, gettoken-word, gettoken-symbol, gettoken-output, gettoken-append,
  word-no_space, and_left,
}

abbrev pub arrows : Text
arrows = b'<' ∷ b'>' ∷ []

redir_step :
    (fuel : ℕ) (cmd : Command) (r : Redir) (rest : Text)
    → no_space rest ≡ true
    → redirs_loop (suc fuel) cmd (redir_text r rest) ≡ redirs_loop fuel (redirected cmd r) rest
unfolding redirs_loop
redir_step fuel cmd (input w) rest h =
    rw
      (
        peek_lem arrows (redir_text (input w) rest) refl,
        gettoken-symbol b'<' (word_text w rest) refl (word-no_space w rest),
        gettoken-word w rest h,
      )
      refl
redir_step fuel cmd (output w) rest h =
    rw
      (
        peek_lem arrows (redir_text (output w) rest) refl,
        gettoken-output w rest,
        gettoken-word w rest h,
      )
      refl
redir_step fuel cmd (appended w) rest h =
    rw
      (
        peek_lem arrows (redir_text (appended w) rest) refl,
        gettoken-append (word_text w rest) (word-no_space w rest),
        gettoken-word w rest h,
      )
      refl

pub redirs-no_space :
    (rs : List Redir) (rest : Text) → no_space rest ≡ true → no_space (redirs_text rs rest) ≡ true
redirs-no_space [] rest h = h
redirs-no_space (input w ∷ rs) rest h = refl
redirs-no_space (output w ∷ rs) rest h = refl
redirs-no_space (appended w ∷ rs) rest h = refl

redirs_loop_lem :
    (fuel : ℕ) (cmd : Command) (rs : List Redir) (rest : Text)
    → length rs ≤ fuel
    → no_space rest ≡ true
    → starts_in arrows rest ≡ false
    → redirs_loop fuel cmd (redirs_text rs rest) ≡ ok (wrap cmd rs) rest
unfolding redirs_loop
redirs_loop_lem zero cmd [] rest l h e = refl
redirs_loop_lem zero cmd (r ∷ rs) rest l h e = absurd (omega arith)
redirs_loop_lem (suc fuel) cmd [] rest l h e = rw (peek_lem arrows rest h, e) refl
redirs_loop_lem (suc fuel) cmd (r ∷ rs) rest l h e =
    redir_step fuel cmd r (redirs_text rs rest) (redirs-no_space rs rest h)
    ∙ redirs_loop_lem fuel (redirected cmd r) rs rest (omega arith) h e

pub length-word_text : (w : Word) (rest : Text) → 2 + length rest ≤ length (word_text w rest)
length-word_text w rest = omega (arith, length-append (bytes w) (32 ∷ rest))

length-redir_text : (r : Redir) (rest : Text) → 1 + length rest ≤ length (redir_text r rest)
length-redir_text (input w) rest = omega (arith, length-word_text w rest)
length-redir_text (output w) rest = omega (arith, length-word_text w rest)
length-redir_text (appended w) rest = omega (arith, length-word_text w rest)

pub length-redirs_text :
    (rs : List Redir) (rest : Text) → length rs + length rest ≤ length (redirs_text rs rest)
length-redirs_text [] rest = omega arith
length-redirs_text (r ∷ rs) rest =
    omega (arith, length-redir_text r (redirs_text rs rest), length-redirs_text rs rest)

pub parseredirs_lem :
    (cmd : Command) (rs : List Redir) (rest : Text)
    → no_space rest ≡ true
    → starts_in arrows rest ≡ false
    → parseredirs cmd (redirs_text rs rest) ≡ ok (wrap cmd rs) rest
unfolding parseredirs
parseredirs_lem cmd rs rest h e =
    redirs_loop_lem (length (redirs_text rs rest)) cmd rs rest
      (omega (arith, length-redirs_text rs rest)) h e

-- what may stand behind a command
abbrev pub stops : Text
stops = b'|' ∷ b')' ∷ b'&' ∷ b';' ∷ []

abbrev pub ends : Text → Text → Bool
ends set [] = true
ends set (c ∷ s) = is_in set c

pub stops_is :
    (rest : Text)
    → ends stops rest ≡ true
    → (no_space rest ≡ true)
      × (starts_in arrows rest ≡ false)
      × (starts_in (b'(' ∷ []) rest ≡ false)
stops_is [] h = (refl, refl, refl)
stops_is (c ∷ s) h = (ground arith, ground arith, ground arith)

pub word_is :
    (w : Word) (rest : Text)
    → (starts_in arrows (word_text w rest) ≡ false)
      × (starts_in stops (word_text w rest) ≡ false)
      × (starts_in (b'(' ∷ []) (word_text w rest) ≡ false)
word_is w rest =
    let e = and_left (is_plain w.first) (all_plain w.more) w.plain in
    (ground arith, ground arith, ground arith)

-- The rest may also start with an argument.
pub args_is :
    (args : List (Word × List Redir)) (rest : Text)
    → ends stops rest ≡ true
    → (no_space (args_text args rest) ≡ true)
      × (starts_in arrows (args_text args rest) ≡ false)
      × (starts_in (b'(' ∷ []) (args_text args rest) ≡ false)
args_is [] rest h = stops_is rest h
args_is ((w, rs) ∷ args) rest h =
    let (a, b, c) = word_is w (redirs_text rs (args_text args rest)) in
    (word-no_space w (redirs_text rs (args_text args rest)), a, c)

wrap-append : (cmd : Command) (rs rs' : List Redir) → wrap (wrap cmd rs) rs' ≡ wrap cmd (rs ++ rs')
wrap-append cmd [] rs' = refl
wrap-append cmd (r ∷ rs) rs' = wrap-append (redirected cmd r) rs rs'

add_arg-redirected :
    (cmd : Command) (r : Redir) (arg : Text)
    → add_arg (redirected cmd r) arg ≡ redirected (add_arg cmd arg) r
add_arg-redirected cmd (input w) arg = refl
add_arg-redirected cmd (output w) arg = refl
add_arg-redirected cmd (appended w) arg = refl

add_arg-wrap :
    (cmd : Command) (rs : List Redir) (arg : Text)
    → add_arg (wrap cmd rs) arg ≡ wrap (add_arg cmd arg) rs
add_arg-wrap cmd [] arg = refl
add_arg-wrap cmd (r ∷ rs) arg =
    add_arg-wrap (redirected cmd r) rs arg ∙ ap (λ c. wrap c rs) (add_arg-redirected cmd r arg)

args_end :
    (fuel argc : ℕ) (ret : Command) (rest : Text)
    → ends stops rest ≡ true
    → args_loop (suc fuel) argc ret rest ≡ ok ret rest
unfolding args_loop gettoken split_token skip_space
args_end fuel argc ret [] h = rw (peek_lem stops [] refl) refl
args_end fuel argc ret (c ∷ s) h = rw (peek_lem stops (c ∷ s) (stops_is (c ∷ s) h).0, h) refl

pub args_loop_lem :
    (args : List (Word × List Redir)) (fuel argc : ℕ) (argv : List Text) (rs : List Redir)
    (rest : Text)
    → argc + length args < maxargs
    → length args < fuel
    → ends stops rest ≡ true
    → args_loop fuel argc (wrap (execcmd argv) rs) (args_text args rest)
      ≡ ok (wrap (execcmd (argv ++ arg_bytes args)) (rs ++ arg_redirs args)) rest
unfolding args_loop
args_loop_lem args zero argc argv rs rest h l e = absurd (omega arith)
args_loop_lem [] (suc fuel) argc argv rs rest h l e =
    args_end fuel argc (wrap (execcmd argv) rs) rest e
    ∙ ap₂ (λ a r. ok (wrap (execcmd a) r) rest) (sym (append-nil argv)) (sym (append-nil rs))
args_loop_lem ((w, rs') ∷ args) (suc fuel) argc argv rs rest h l e =
    let tail = args_text args rest in
    let (no_sp, no_arrow, _) = args_is args rest e in
    let (_, no_stop, _) = word_is w (redirs_text rs' tail) in
    let few : leb maxargs (argc + 1) ≡ false = ground arith in
    rw
      (
        peek_lem stops (word_text w (redirs_text rs' tail))
            (word-no_space w (redirs_text rs' tail)),
        no_stop,
        gettoken-word w (redirs_text rs' tail) (redirs-no_space rs' tail no_sp),
        few,
        add_arg-wrap (execcmd argv) rs (bytes w),
        parseredirs_lem (wrap (execcmd (argv ++ (bytes w ∷ []))) rs) rs' tail no_sp no_arrow,
        wrap-append (execcmd (argv ++ (bytes w ∷ []))) rs rs',
      )
      (args_loop_lem args fuel (argc + 1) (argv ++ (bytes w ∷ [])) (rs ++ rs') rest (omega arith)
          (omega arith) e
        ∙ ap₂ (λ a r. ok (wrap (execcmd a) r) rest)
            (append_assoc argv (bytes w ∷ []) (arg_bytes args))
            (append_assoc rs rs' (arg_redirs args)))
