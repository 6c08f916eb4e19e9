-- ===== src/Sh/Tokens.antt =====
-- What `gettoken` and `peek` do on words and symbols.
use os2025_assignment.Base.{
  ℕ, ◌≡◌, refl, inl, inr, Bool, true, false, not, ◌&&◌, [], ◌∷◌, ◌++◌, ◌==◌, Bool-cases, arith,
}
use os2025_assignment.Machine.{ok}
use os2025_assignment.Sh.{
  Text, is_plain, is_in, whitespace, skip_space, split_word, split_token, word, append, gettoken,
  peek, starts_in,
}
use os2025_assignment.Sh.Syntax.{Word, all_plain, bytes, word_text}

-- The line does not start with a space.
abbrev pub no_space : Text → Bool
no_space [] = true
no_space (c ∷ s) = not (is_in whitespace c)

pub skip_space_no : (s : Text) → no_space s ≡ true → skip_space s ≡ s
unfolding skip_space
skip_space_no [] h = refl
skip_space_no (c ∷ s) h = elim (Bool-cases (is_in whitespace c)) [
  | inl e ↦ cc (rw e at h)
  | inr e ↦ rw e refl
]

pub peek_lem : (toks s : Text) → no_space s ≡ true → peek toks s ≡ ok (starts_in toks s) s
unfolding peek
peek_lem toks s h = rw (peek, skip_space_no s h) refl

pub and_left : (a b : Bool) → (a && b) ≡ true → a ≡ true
and_left true b h = refl
and_left false b h = h

and_right : (a b : Bool) → (a && b) ≡ true → b ≡ true
and_right true b h = h
and_right false b h = cc h

split_word_lem :
    (s rest : Text) → all_plain s ≡ true → split_word (s ++ (32 ∷ rest)) ≡ (s, 32 ∷ rest)
unfolding split_word
split_word_lem [] rest h = refl
split_word_lem (c ∷ s) rest h =
    let e : is_plain c ≡ true = and_left (is_plain c) (all_plain s) h in
    let e' : all_plain s ≡ true = and_right (is_plain c) (all_plain s) h in
    rw (e, split_word_lem s rest e') refl

-- one-byte symbols
abbrev pub singles : Text
singles = b'|' ∷ b'(' ∷ b')' ∷ b';' ∷ b'&' ∷ b'<' ∷ []

plain_is :
    (c : ℕ)
    → is_plain c ≡ true
    → (is_in whitespace c ≡ false) × ((c == b'>') ≡ false) × (is_in singles c ≡ false)
plain_is c h = (ground arith, ground arith, ground arith)

single_is : (c : ℕ) → is_in singles c ≡ true → (is_in whitespace c ≡ false) × ((c == b'>') ≡ false)
single_is c h = (ground arith, ground arith)

pub gettoken-word :
    (w : Word) (rest : Text)
    → no_space rest ≡ true
    → gettoken (word_text w rest) ≡ ok (word, bytes w) rest
unfolding gettoken split_token skip_space
gettoken-word w rest h =
    let (e1, e2, e3) = plain_is w.first (and_left (is_plain w.first) (all_plain w.more) w.plain) in
    rw
      (
        skip_space,
        e1,
        split_token,
        e2,
        e3,
        split_word_lem (bytes w) rest w.plain,
        skip_space,
        skip_space_no rest h,
      )
      refl

pub gettoken-symbol :
    (c : ℕ) (rest : Text)
    → is_in singles c ≡ true
    → no_space rest ≡ true
    → gettoken (c ∷ rest) ≡ ok (c, c ∷ []) rest
unfolding gettoken split_token skip_space
gettoken-symbol c rest h h' =
    let (e1, e2) = single_is c h in
    rw (skip_space, e1, split_token, e2, h, skip_space_no rest h') refl

-- '>' before a word
pub gettoken-output :
    (w : Word) (rest : Text)
    → gettoken (b'>' ∷ word_text w rest) ≡ ok (b'>', b'>' ∷ []) (word_text w rest)
unfolding gettoken split_token skip_space
gettoken-output w rest =
    let (e1, e2, e3) = plain_is w.first (and_left (is_plain w.first) (all_plain w.more) w.plain) in
    rw (e2, e1) refl

pub gettoken-append :
    (rest : Text)
    → no_space rest ≡ true
    → gettoken (b'>' ∷ b'>' ∷ rest) ≡ ok (append, b'>' ∷ b'>' ∷ []) rest
unfolding gettoken split_token skip_space
gettoken-append rest h = rw (skip_space_no rest h) refl

pub word-no_space : (w : Word) (rest : Text) → no_space (word_text w rest) ≡ true
word-no_space w rest =
    let (e1, _, _) = plain_is w.first (and_left (is_plain w.first) (all_plain w.more) w.plain) in
    rw e1 refl
