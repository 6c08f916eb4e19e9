-- ===== src/Proc/Locks.antt =====
-- Critical sections: a lock that is taken and released leaves the lock state as it was.
use os2025_assignment.Base.{
  ℕ, ◌+◌, ◌≡◌, Bool, true, false, fun_ext, ap, sym, arith, ==_self, ltb_pos, add_sub_one, update,
}
use os2025_assignment.Machine.{Cmd, Void, ok, and_then}
use os2025_assignment.Proc.{Kernel, acquire, release, acquire_wait, release_wait}

pub relocked :
    (locks : ℕ → Bool) (p : ℕ) → locks p ≡ false → update (update locks p true) p false ≡ locks
relocked locks p h = fun_ext λ j. ground (arith, ap locks)

module _ {W : Type 0} where
  -- the state inside a critical section of `p->lock` entered at `k`
  abbrev pub held : Kernel W → ℕ → Kernel W
  held k p = record k { locks = update k.locks p true; noff = k.noff + 1 }

  pub acquire-held : (k : Kernel W) (p : ℕ) → k.locks p ≡ false → acquire p k ≡ ok tt (held k p)
  unfolding acquire
  acquire-held k p h = rw h

  -- Other fields may have changed meanwhile.
  pub release-held : (k : Kernel W) (p : ℕ) → k.locks p ≡ false → release p (held k p) ≡ ok tt k
  unfolding release
  release-held k p h = rw (==_self, ltb_pos, add_sub_one, relocked k.locks p h)

  pub release-then :
      {A : Type 0} (f : Void → Cmd (Kernel W) A) (k : Kernel W) (p : ℕ)
      → k.locks p ≡ false
      → and_then (release p (held k p)) f ≡ f tt k
  release-then f k p h = ap (λ r. and_then r f) (release-held k p h)

  -- the state with `wait_lock` taken at `k`
  abbrev pub waiting : Kernel W → Kernel W
  waiting k = record k { wait_lock = true; noff = k.noff + 1 }

  pub acquire_wait-ok : (k : Kernel W) → k.wait_lock ≡ false → acquire_wait k ≡ ok tt (waiting k)
  unfolding acquire_wait
  acquire_wait-ok k h = rw h

  pub release_wait-ok : (k : Kernel W) → k.wait_lock ≡ false → release_wait (waiting k) ≡ ok tt k
  unfolding release_wait
  release_wait-ok k h =
      rw (ltb_pos, add_sub_one) (ap (λ b. ok tt (record k { wait_lock = b })) (sym h))
