-- ===== src/Sh/Lines.antt =====
-- How lines, pipelines and commands start and end.
use os2025_assignment.Base.{
  ℕ, zero, suc, ◌+◌, ◌≤◌, ◌≡◌, refl, true, false, List, [], ◌∷◌, length, arith,
}
use os2025_assignment.Machine.{ok}
use os2025_assignment.Sh.{Text, Command, backcmd, starts_in, back_loop}
use os2025_assignment.Sh.Syntax.{
  Word, Redir, input, output, appended, Line, last, sequence, Pipe, one, into, Exec, block, simple,
  redirs_text, args_text, backs_text, line_text, pipe_text, exec_text, backs,
}
use os2025_assignment.Sh.Tokens.{no_space, peek_lem, gettoken-symbol}
use os2025_assignment.Sh.Args.{
  stops, ends, args_is, redirs-no_space, length-word_text, length-redirs_text,
}

-- what may stand behind a line, and behind a pipeline
abbrev pub closers : Text
closers = b')' ∷ []

abbrev pub enders : Text
enders = b')' ∷ b'&' ∷ b';' ∷ []

pub closers_is :
    (rest : Text)
    → ends closers rest ≡ true
    → (ends enders rest ≡ true)
      × (no_space rest ≡ true)
      × (starts_in (b'&' ∷ []) rest ≡ false)
      × (starts_in (b';' ∷ []) rest ≡ false)
closers_is [] h = (refl, refl, refl, refl)
closers_is (c ∷ s) h = (ground arith, ground arith, ground arith, ground arith)

pub enders_is :
    (rest : Text)
    → ends enders rest ≡ true
    → (ends stops rest ≡ true) × (no_space rest ≡ true) × (starts_in (b'|' ∷ []) rest ≡ false)
enders_is [] h = (refl, refl, refl)
enders_is (c ∷ s) h = (ground arith, ground arith, ground arith)

pub backs_is :
    (n : ℕ) (rest : Text) → ends enders rest ≡ true → ends enders (backs_text n rest) ≡ true
backs_is zero rest h = h
backs_is (suc n) rest h = refl

pub exec-no_space :
    (e : Exec) (rest : Text) → ends stops rest ≡ true → no_space (exec_text e rest) ≡ true
unfolding exec_text
exec-no_space (block l rs) rest h = refl
exec-no_space (simple rs args l) rest h =
    redirs-no_space rs (args_text args rest) (args_is args rest h).0

pub pipe-no_space :
    (p : Pipe) (rest : Text) → ends stops rest ≡ true → no_space (pipe_text p rest) ≡ true
unfolding pipe_text
pipe-no_space (one e) rest h = exec-no_space e rest h
pipe-no_space (into e p) rest h = exec-no_space e (b'|' ∷ pipe_text p rest) refl

pub line-no_space :
    (l : Line) (rest : Text) → ends closers rest ≡ true → no_space (line_text l rest) ≡ true
unfolding line_text
line-no_space (last p n) rest h =
    pipe-no_space p (backs_text n rest)
      (enders_is (backs_text n rest) (backs_is n rest (closers_is rest h).0)).0
line-no_space (sequence p n l) rest h =
    pipe-no_space p (backs_text n (b';' ∷ line_text l rest))
      (enders_is (backs_text n (b';' ∷ line_text l rest))
        (backs_is n (b';' ∷ line_text l rest) refl)).0

pub backs-no_space :
    (n : ℕ) (rest : Text) → no_space rest ≡ true → no_space (backs_text n rest) ≡ true
backs-no_space zero rest h = h
backs-no_space (suc n) rest h = refl

pub back_loop_lem :
    (n fuel : ℕ) (cmd : Command) (rest : Text)
    → n ≤ fuel
    → no_space rest ≡ true
    → starts_in (b'&' ∷ []) rest ≡ false
    → back_loop fuel cmd (backs_text n rest) ≡ ok (backs n cmd) rest
unfolding back_loop
back_loop_lem zero zero cmd rest l h e = refl
back_loop_lem zero (suc fuel) cmd rest l h e = rw (peek_lem (b'&' ∷ []) rest h, e) refl
back_loop_lem (suc n) zero cmd rest l h e = absurd (omega arith)
back_loop_lem (suc n) (suc fuel) cmd rest l h e =
    rw
      (
        peek_lem (b'&' ∷ []) (backs_text (suc n) rest) refl,
        gettoken-symbol b'&' (backs_text n rest) refl (backs-no_space n rest h),
      )
      (back_loop_lem n fuel (backcmd cmd) rest (omega arith) h e)

pub length-backs_text : (n : ℕ) (rest : Text) → n + length rest ≤ length (backs_text n rest)
length-backs_text zero rest = omega arith
length-backs_text (suc n) rest = omega (arith, length-backs_text n rest)

pub length-args_text :
    (args : List (Word × List Redir)) (rest : Text)
    → length args + length rest ≤ length (args_text args rest)
length-args_text [] rest = omega arith
length-args_text ((w, rs) ∷ args) rest = omega (
  arith,
  length-word_text w (redirs_text rs (args_text args rest)),
  length-redirs_text rs (args_text args rest),
  length-args_text args rest,
)

pub not_open :
    (rs : List Redir) (rest : Text)
    → starts_in (b'(' ∷ []) rest ≡ false
    → starts_in (b'(' ∷ []) (redirs_text rs rest) ≡ false
not_open [] rest h = h
not_open (input w ∷ rs) rest h = refl
not_open (output w ∷ rs) rest h = refl
not_open (appended w ∷ rs) rest h = refl
