-- ===== src/Base/Array.antt =====
-- C arrays and memory as functions from an index or an address to what stands there.
use Prim.Native.Nat.{ℕ, zero, suc, ◌+◌, ◌≤◌}
use mathlib.Core.Path.{◌≡◌, ap, ap₂, refl, fun_ext}
use mathlib.Core.Logic.{◌≢◌}
use mathlib.Core.List.{List, [], ◌∷◌, ◌++◌}
use mathlib.Core.Bool.{Bool, ◌&&◌}
use native.Mathlib.Decide.{ℕ_discrete}
use native.Mathlib.Omega.{arith}
use os2025_assignment.Base.Tests.{leb, ltb, ◌==◌, if◌then◌else◌}

module _ {ℓ} {A : Type ℓ} where
  -- `a[i] = v`
  abbrev pub update : (ℕ → A) → ℕ → A → ℕ → A
  update f i v j = if j == i then v else f j

  pub update_self : (f : ℕ → A) (i : ℕ) (v : A) → update f i v i ≡ v
  update_self f i v = ground arith

  pub update_ne : (f : ℕ → A) (i : ℕ) (v : A) (j : ℕ) → j ≢ i → update f i v j ≡ f j
  update_ne f i v j h = ground arith

  -- the `n` entries from index `i` on
  abbrev pub slice : (ℕ → A) → ℕ → ℕ → List A
  slice f i zero = []
  slice f i (suc n) = f i ∷ slice f (i + 1) n

-- `j` lies among the `n` numbers from `p` on
abbrev pub within : ℕ → ℕ → ℕ → Bool
within p n j = leb p j && ltb j (p + n)

module _ {ℓ} {A : Type ℓ} where
  -- writing back what stands there changes nothing
  pub update_eta : (f : ℕ → A) (i : ℕ) → update f i (f i) ≡ f
  update_eta f i = fun_ext λ j. ground (arith, ap f)

  -- what a loop that applies `g` to each of `n` entries has done to the array
  abbrev pub map_range : (ℕ → A → A) → ℕ → ℕ → (ℕ → A) → ℕ → A
  map_range g p n f j = if within p n j then g j (f j) else f j

  pub map_range-zero : (g : ℕ → A → A) (p : ℕ) (f : ℕ → A) → map_range g p 0 f ≡ f
  map_range-zero g p f = fun_ext λ j. ground arith

  -- the first round, and then the others
  pub map_range-suc :
      (g : ℕ → A → A) (p n : ℕ) (f : ℕ → A)
      → map_range g (p + 1) n (update f p (g p (f p))) ≡ map_range g p (suc n) f
  map_range-suc g p n f =
      fun_ext λ j. elim (ℕ_discrete j p) [ yes e ↦ rw e (ground arith) | no ne ↦ ground arith ]

  pub update_twice : (f : ℕ → A) (i : ℕ) (v w : A) → update (update f i v) i w ≡ update f i w
  update_twice f i v w = fun_ext λ j. ground arith

  pub slice-snoc :
      (f : ℕ → A) (i n k : ℕ) → i + n ≡ k → slice f i (suc n) ≡ slice f i n ++ (f k ∷ [])
  slice-snoc f i zero k h = ap (λ j. f j ∷ []) (omega arith)
  slice-snoc f i (suc n) k h = ap (λ xs. f i ∷ xs) (slice-snoc f (i + 1) n k (omega arith))

  -- a write behind the slice leaves it alone
  pub slice-update :
      (f : ℕ → A) (i n k : ℕ) (v : A) → i + n ≤ k → slice (update f k v) i n ≡ slice f i n
  slice-update f i zero k v h = refl
  slice-update f i (suc n) k v h =
      ap₂ ◌∷◌ (update_ne f k v i (omega arith)) (slice-update f (i + 1) n k v (omega arith))
