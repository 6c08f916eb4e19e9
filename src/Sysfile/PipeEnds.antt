-- ===== src/Sysfile/PipeEnds.antt =====
-- The two ends of the pipe that `pipealloc` of kernel/pipe.c makes.
use os2025_assignment.Base.{
  ℕ, ◌+◌, ◌≡◌, ◌≢◌, refl, sym, inr, Bool, true, false, update, update_self, update_ne, arith,
}
use mathlib.Core.Path.{subst}
use os2025_assignment.File.{File, pipe, Ftable}
use os2025_assignment.Sysfile.{nofile}
use os2025_assignment.Sysfile.Pipes.{pipe_end}
use os2025_assignment.Sysfile.Slots.{with_file}
use os2025_assignment.Sysfile.Counts.{refs, bump, IsCounted, IsCounted-entry}
use os2025_assignment.Sysfile.Shares.{bump_self, IsPlain, IsCounted-swap}

-- One end of the pipe in a page: the end to write to, or the end to read from.
abbrev pub IsEnd : ℕ → Bool → File → Type 0
IsEnd page true f =
    (f.kind ≡ pipe) × (f.pipe_at ≡ page) × (f.readable ≡ false) × (f.writable ≡ true)
IsEnd page false f =
    (f.kind ≡ pipe) × (f.pipe_at ≡ page) × (f.readable ≡ true) × (f.writable ≡ false)

-- The file `a` is the end to read from and `b` the end to write to, of one pipe.
abbrev pub AreEnds : Ftable → ℕ → ℕ → Type 0
AreEnds t a b = (page : ℕ) × (page ≢ 0) × IsEnd page false (t a) × IsEnd page true (t b)

pub ends-IsPlain : (t : Ftable) (a b : ℕ) → AreEnds t a b → IsPlain (t a) × IsPlain (t b)
ends-IsPlain t a b (page, nz, (ka, _, _, _), (kb, _, _, _)) = (inr ka, inr kb)

-- the entry of a file that is held gets other contents
put_end :
    (others o : ℕ → ℕ) (t : Ftable) (f page : ℕ) (writing : Bool)
    → IsCounted (bump f others) o t
    → IsCounted (bump f others) o (update t f (pipe_end page writing (t f)))
put_end others o t f page writing c =
    IsCounted-entry (bump f others) (bump f others) o t f (pipe_end page writing (t f)) c refl
      (λ g ne. refl) (λ z. elim (bumped (t f).ref (c.counts f) z) [ ])
  where
    bumped : (r : ℕ) → r ≡ bump f others f + refs o f nofile → r ≢ 0
    bumped r e z = omega (arith, bump_self f others)

pub other_file : (t : Ftable) (a b : ℕ) → (with_file t a b).ref ≡ 0 → a ≢ b
other_file t a b z e = elim (taken (t a) (subst (λ x. (with_file t a x).ref ≡ 0) (sym e) z)) [ ]
  where
    taken : (f : File) → (with_file t a a).ref ≢ 0
    taken f q = ground (arith, q)

pub both_ends :
    (others o : ℕ → ℕ) (t : Ftable) (a b page : ℕ)
    → a ≢ b
    → page ≢ 0
    → IsCounted (bump a (bump b others)) o t
    → let t1 = update t a (pipe_end page false (t a)) in
      let t2 = update t1 b (pipe_end page true (t1 b)) in
      IsCounted (bump a (bump b others)) o t2 × AreEnds t2 a b
both_ends others o t a b page ne nz c =
    let t1 = update t a (pipe_end page false (t a)) in
    let c1 = put_end (bump b others) o t a page false c in
    let c2 = put_end (bump a others) o t1 b page true (IsCounted-swap others o t1 a b c1) in
    let t2 = update t1 b (pipe_end page true (t1 b)) in
    (
      IsCounted-swap others o t2 b a c2,
      (
        page,
        nz,
        rw
            (
              update_ne t1 b (pipe_end page true (t1 b)) a ne,
              update_self t a (pipe_end page false (t a)),
            )
            (refl, refl, refl, refl),
        rw (update_self t1 b (pipe_end page true (t1 b))) (refl, refl, refl, refl),
      ),
    )
