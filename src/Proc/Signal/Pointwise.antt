-- ===== src/Proc/Signal/Pointwise.antt =====
-- What `wakeup` and `kill` do to each entry of the process table.
use os2025_assignment.Base.{
  ℕ, zero, suc, ◌+◌, ◌≡◌, refl, true, false, inl, inr, ◌&&◌, ◌==◌, ◌/=◌, if◌then◌else◌, Bool-cases,
  update, update_eta, map_range, map_range-zero, map_range-suc, ==_self, update_twice, Option, none,
  some,
}
use os2025_assignment.Machine.{ok, pure}
use os2025_assignment.Proc.{runnable, is_sleeping, Proc, nproc, first_proc, Kernel}
use os2025_assignment.Proc.Locks.{acquire-held, release-held, release-then}
use os2025_assignment.Proc.Signal.{
  wakeup_one, wakeup_loop, wakeup, kill_loop, kill, killed, setkilled,
}

-- the entry after a `wakeup` of `chan`
unfoldable pub woken : ℕ → Proc → Proc
woken chan q = if is_sleeping q.state && (q.chan == chan) then record q { state = runnable } else q

abbrev pub woken_except : ℕ → ℕ → ℕ → Proc → Proc
woken_except me chan p q = if p /= me then woken chan q else q

-- the first of the `n` entries from `p` on that has the number
unfoldable pub find_pid : ℕ → ℕ → ℕ → (ℕ → Proc) → Option ℕ
find_pid zero p pid procs = none
find_pid (suc n) p pid procs = if (procs p).pid == pid then some p else find_pid n (p + 1) pid procs

-- the entry after a `kill`
unfoldable pub victim : Proc → Proc
victim q = record q { killed = 1; state = if is_sleeping q.state then runnable else q.state }

module _ {W : Type 0} where
  wakeup_one_lem :
      (chan p : ℕ) (k : Kernel W)
      → k.locks p ≡ false
      → wakeup_one chan p k
        ≡ ok tt (record k { procs = update k.procs p (woken_except k.current chan p (k.procs p)) })
  unfolding wakeup_one woken
  wakeup_one_lem chan p k h = elim (Bool-cases (p /= k.current)) [
    | inr mine ↦ rw (mine, update_eta k.procs p)
    | inl other ↦
        rw (other, acquire-held k p h)
          (elim (Bool-cases (is_sleeping (k.procs p).state && ((k.procs p).chan == chan))) [
            | inl wakes ↦ rw wakes (
                release-held
                  (record k { procs = update k.procs p (record (k.procs p) { state = runnable }) })
                  p h)
            | inr stays ↦ rw (stays, update_eta k.procs p) (release-held k p h)
          ])
  ]

  wakeup_loop_lem :
      (n p chan : ℕ) (k : Kernel W)
      → ((j : ℕ) → k.locks j ≡ false)
      → wakeup_loop n p chan k
        ≡ ok tt (record k { procs = map_range (woken_except k.current chan) p n k.procs })
  unfolding wakeup_loop
  wakeup_loop_lem zero p chan k h = rw (map_range-zero (woken_except k.current chan) p k.procs)
  wakeup_loop_lem (suc n) p chan k h = rw (
    wakeup_one_lem chan p k (h p),
    wakeup_loop_lem n (p + 1) chan
        (record k { procs = update k.procs p (woken_except k.current chan p (k.procs p)) }) h,
    map_range-suc (woken_except k.current chan) p n k.procs,
  )

  -- With no lock held, `wakeup` makes exactly those entries runnable that sleep on the channel, the
  -- caller's own apart, and changes nothing else: in particular it holds no lock afterwards.
  pub wakeup_lem :
      (chan : ℕ) (k : Kernel W)
      → ((j : ℕ) → k.locks j ≡ false)
      → wakeup chan k
        ≡ ok tt
            (record k { procs = map_range (woken_except k.current chan) first_proc nproc k.procs })
  unfolding wakeup
  wakeup_lem chan k h = wakeup_loop_lem nproc first_proc chan k h

  kill_loop_lem :
      (n p pid : ℕ) (k : Kernel W)
      → ((j : ℕ) → k.locks j ≡ false)
      → kill_loop n p pid k ≡ elim (find_pid n p pid k.procs) [
        | none ↦ ok false k
        | some j ↦ ok true (record k { procs = update k.procs j (victim (k.procs j)) })
      ]
  unfolding kill_loop find_pid victim
  kill_loop_lem zero p pid k h = refl
  kill_loop_lem (suc n) p pid k h =
      rw (acquire-held k p (h p)) (elim (Bool-cases ((k.procs p).pid == pid)) [
        | inl hit ↦ rw hit (elim (Bool-cases (is_sleeping (k.procs p).state)) [
          | inl asleep ↦
              rw
                (
                  asleep,
                  ==_self p,
                  update_twice k.procs p (record (k.procs p) { killed = 1 })
                      (record (k.procs p) { killed = 1; state = runnable }),
                )
                (release-then (λ _. pure true)
                  (record k {
                    procs = update k.procs p (record (k.procs p) { killed = 1; state = runnable });
                  })
                  p (h p))
          | inr awake ↦ rw awake (
              release-then (λ _. pure true)
                (record k { procs = update k.procs p (record (k.procs p) { killed = 1 }) }) p (h p))
        ])
        | inr miss ↦ rw (miss, release-held k p (h p)) (kill_loop_lem n (p + 1) pid k h)
      ])

  -- With no lock held, `kill` returns 0 if an entry has the number, and then marks the first such
  -- entry killed and wakes it if it sleeps, and changes nothing else. Otherwise it returns -1 and
  -- changes nothing.
  pub kill_lem :
      (pid : ℕ) (k : Kernel W)
      → ((j : ℕ) → k.locks j ≡ false)
      → kill pid k ≡ elim (find_pid nproc first_proc pid k.procs) [
        | none ↦ ok false k
        | some j ↦ ok true (record k { procs = update k.procs j (victim (k.procs j)) })
      ]
  unfolding kill
  kill_lem pid k h = kill_loop_lem nproc first_proc pid k h

  pub killed_lem : (p : ℕ) (k : Kernel W) → k.locks p ≡ false → killed p k ≡ ok (k.procs p).killed k
  unfolding killed
  killed_lem p k h = rw (acquire-held k p h, release-held k p h)

  pub setkilled_lem :
      (p : ℕ) (k : Kernel W)
      → k.locks p ≡ false
      → setkilled p k
        ≡ ok tt (record k { procs = update k.procs p (record (k.procs p) { killed = 1 }) })
  unfolding setkilled
  setkilled_lem p k h =
      rw (acquire-held k p h) (
        release-held (record k { procs = update k.procs p (record (k.procs p) { killed = 1 }) }) p
          h)
