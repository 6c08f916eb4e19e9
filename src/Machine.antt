-- ===== src/Machine.antt =====
-- Kernel code as functions on a state: it returns a value and the new state, or it panics.
use os2025_assignment.Base.{Bool, if◌then◌else◌}

pub data Run (S : Type 0) (A : Type 0) : Type 0 where
  ok : A → S → Run S A
  panic : Run S A

abbrev pub Cmd : Type 0 → Type 0 → Type 0
Cmd S A = S → Run S A

abbrev pub Void : Type 0
Void = Unit {0}

module _ {S : Type 0} where
  abbrev pub pure : {A : Type 0} → A → Cmd S A
  pure = ok

  abbrev pub and_then : {A B : Type 0} → Run S A → (A → Cmd S B) → Run S B
  and_then (ok a s) k = k a s
  and_then panic k = panic

  infixl 5 ◌>>=◌ ◌>>◌
  abbrev pub ◌>>=◌ : {A B : Type 0} → Cmd S A → (A → Cmd S B) → Cmd S B
  m >>= k = λ s. and_then (m s) k

  abbrev pub ◌>>◌ : {A B : Type 0} → Cmd S A → Cmd S B → Cmd S B
  m >> n = m >>= λ _. n

  -- a value that is read off the state
  abbrev pub gets : {A : Type 0} → (S → A) → Cmd S A
  gets f s = ok (f s) s

  abbrev pub modify : (S → S) → Cmd S Void
  modify f s = ok tt (f s)

  abbrev pub fail : {A : Type 0} → Cmd S A
  fail s = panic

  -- `if(test) body`
  abbrev pub when : Bool → Cmd S Void → Cmd S Void
  when test body = if test then body else pure tt
