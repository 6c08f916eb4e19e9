-- ===== src/Log/Replay.antt =====
-- What the entries of a log header make of a block when they are installed in turn.
use os2025_assignment.Base.{
  ℕ, zero, suc, ◌+◌, ◌≤◌, ◌<◌, ◌≡◌, refl, ◌∙◌, ap, ◌≢◌, ==_ne, Bool, true, false, inl, inr, ◌||◌,
  arith, ◌==◌, if◌then◌else◌, Bool-cases,
}

-- The block `b` after the `n` entries from `t` on, where `f i` is the log's copy for the entry `i`
-- and `z` the block before.
unfoldable pub pick : {A : Type 0} → (ℕ → ℕ) → ℕ → (ℕ → A) → ℕ → ℕ → A → A
pick block b f zero t z = z
pick block b f (suc n) t z = pick block b f n (t + 1) (if block t == b then f t else z)

-- whether the block is that of one of the `n` entries from `t` on
unfoldable pub is_logged : (ℕ → ℕ) → ℕ → ℕ → ℕ → Bool
is_logged block b zero t = false
is_logged block b (suc n) t = (block t == b) || is_logged block b n (t + 1)

same : (x y : ℕ) → (x == y) ≡ true → x ≡ y
same x y h = ground arith

module _ {A : Type 0} (block : ℕ → ℕ) (b : ℕ) where
  pub pick-ext :
      (f g : ℕ → A) (n t : ℕ) (z : A)
      → ((i : ℕ) → t ≤ i → i < t + n → f i ≡ g i)
      → pick block b f n t z ≡ pick block b g n t z
  unfolding pick
  pick-ext f g zero t z h = refl
  pick-ext f g (suc n) t z h = rw (h t (omega arith) (omega arith)) (
      pick-ext f g n (t + 1) (if block t == b then g t else z)
        (λ i a c. h i (omega arith) (omega arith)))

  -- Installing some of the entries first makes no difference.
  pub pick-pick :
      (f : ℕ → A) (m n t : ℕ) (z : A)
      → m ≤ n
      → pick block b f n t (pick block b f m t z) ≡ pick block b f n t z
  unfolding pick
  pick-pick f zero n t z h = refl
  pick-pick f (suc m) zero t z h = absurd (omega arith)
  pick-pick f (suc m) (suc n) t z h = elim (Bool-cases (block t == b)) [
    | inl hit ↦ rw hit
    | inr miss ↦ rw miss (pick-pick f m n (t + 1) z (omega arith))
  ]

  -- If the log's copies are those of `g`, then so is the block, if it was or is logged.
  pub pick-copies :
      (f g : ℕ → A) (n t : ℕ) (z : A)
      → ((i : ℕ) → t ≤ i → i < t + n → f i ≡ g (block i))
      → (is_logged block b n t ≡ false → z ≡ g b)
      → pick block b f n t z ≡ g b
  unfolding pick is_logged
  pick-copies f g zero t z h k = k refl
  pick-copies f g (suc n) t z h k = elim (Bool-cases (block t == b)) [
    | inl hit ↦ rw hit (
        pick-copies f g n (t + 1) (f t) (λ i a c. h i (omega arith) (omega arith))
          (λ _. h t (omega arith) (omega arith) ∙ ap g (same (block t) b hit)))
    | inr miss ↦ rw miss (
        pick-copies f g n (t + 1) z (λ i a c. h i (omega arith) (omega arith)) (λ e. k (rw miss e)))
  ]

  -- Other entries do not matter, and neither does a log in which the block has no entry.
  pub pick-blocks :
      (block' : ℕ → ℕ) (f : ℕ → A) (n t : ℕ) (z : A)
      → ((i : ℕ) → t ≤ i → i < t + n → block' i ≡ block i)
      → pick block' b f n t z ≡ pick block b f n t z
  unfolding pick
  pick-blocks block' f zero t z h = refl
  pick-blocks block' f (suc n) t z h = rw (h t (omega arith) (omega arith)) (
      pick-blocks block' f n (t + 1) (if block t == b then f t else z)
        (λ i a c. h i (omega arith) (omega arith)))

  pub pick-miss :
      (f : ℕ → A) (n t : ℕ) (z : A)
      → ((i : ℕ) → t ≤ i → i < t + n → block i ≢ b)
      → pick block b f n t z ≡ z
  unfolding pick
  pick-miss f zero t z h = refl
  pick-miss f (suc n) t z h =
      rw (==_ne (block t) b (h t (omega arith) (omega arith)))
        (pick-miss f n (t + 1) z (λ i a c. h i (omega arith) (omega arith)))
