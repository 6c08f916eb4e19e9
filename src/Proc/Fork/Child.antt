-- ===== src/Proc/Fork/Child.antt =====
-- The child that `fork` makes: its open files, its memory, its parent and its state.
use os2025_assignment.Base.{
  ℕ, zero, suc, ◌+◌, ◌-◌, ◌≤◌, ◌≡◌, ◌∙◌, ap, ◌≢◌, true, false, inl, inr, some, arith, ◌==◌, ◌/=◌,
  ==_self, ==_ne, ltb, if◌then◌else◌, Bool-cases, update, update_twice, update_eta, map_range,
  map_range-zero, map_range-suc,
}
use native.Mathlib.Decide.{ℕ_discrete}
use os2025_assignment.Machine.{ok}
use os2025_assignment.Str.{safestrcpy}
use os2025_assignment.File.{Ftable, filedup}
use os2025_assignment.Proc.{runnable, Proc, nproc, nofile, first_proc, Services, Kernel}
use os2025_assignment.Proc.Locks.{
  held, acquire-held, release-held, acquire_wait-ok, release_wait-ok,
}
use os2025_assignment.Proc.Alloc.Slots.{find_unused, fresh, allocproc_lem, found-some}
use os2025_assignment.Proc.Fork.{dup, dup_files, copy_process, fork}

-- one more reference to the file `f`
abbrev pub bump : ℕ → Ftable → Ftable
bump f t = update t f (record (t f) { ref = (t f).ref + 1 })

-- the file table after a process is given the `n` open files from `fd` on
unfoldable pub dup_refs : ℕ → ℕ → (ℕ → ℕ) → Ftable → Ftable
dup_refs zero fd open_files t = t
dup_refs (suc n) fd open_files t =
    dup_refs n (fd + 1) open_files (if open_files fd /= 0 then bump (open_files fd - 1) t else t)

-- how many of the `n` descriptors from `fd` on point to the file `f`
unfoldable pub pointers : ℕ → ℕ → (ℕ → ℕ) → ℕ → ℕ
pointers zero fd open_files f = 0
pointers (suc n) fd open_files f =
    (if open_files fd == f + 1 then 1 else 0) + pointers n (fd + 1) open_files f

-- Each file has as many more references as descriptors point to it.
pub ref-dup_refs :
    (n fd : ℕ) (open_files : ℕ → ℕ) (t : Ftable) (f : ℕ)
    → (dup_refs n fd open_files t f).ref ≡ (t f).ref + pointers n fd open_files f
unfolding dup_refs pointers
ref-dup_refs zero fd open_files t f = omega arith
ref-dup_refs (suc n) fd open_files t f = elim (ℕ_discrete f (open_files fd - 1)) [
  | yes e ↦ ground (
    arith,
    ref-dup_refs n (fd + 1) open_files (bump (open_files fd - 1) t) f,
    ref-dup_refs n (fd + 1) open_files t f,
    ap (λ i. (t i).ref) e,
  )
  | no ne ↦ ground (
    arith,
    ref-dup_refs n (fd + 1) open_files (bump (open_files fd - 1) t) f,
    ref-dup_refs n (fd + 1) open_files t f,
  )
]

-- every descriptor that is open points to a file with a reference
abbrev pub Live : (ℕ → ℕ) → Ftable → Type 0
Live open_files t = (fd : ℕ) → open_files fd ≢ 0 → 1 ≤ (t (open_files fd - 1)).ref

Live-bump :
    (open_files : ℕ → ℕ) (t : Ftable) (f : ℕ) → Live open_files t → Live open_files (bump f t)
Live-bump open_files t f h fd ne = ground (arith, h fd)

positive : (n : ℕ) → 1 ≤ n → ltb n 1 ≡ false
positive n h = ground arith

-- the child's descriptor: the parent's, if that is open
abbrev pub inherit : (ℕ → ℕ) → ℕ → ℕ → ℕ
inherit open_files fd v = if open_files fd /= 0 then open_files fd else v

-- the first round of the loop, and the others
inherit_open :
    (fds : ℕ → ℕ) (fd n : ℕ) (f : ℕ → ℕ)
    → (fds fd /= 0) ≡ true
    → map_range (inherit fds) (fd + 1) n (update f fd (fds fd))
      ≡ map_range (inherit fds) fd (suc n) f
inherit_open fds fd n f h = rw h at (map_range-suc (inherit fds) fd n f)

inherit_closed :
    (fds : ℕ → ℕ) (fd n : ℕ) (f : ℕ → ℕ)
    → (fds fd /= 0) ≡ false
    → map_range (inherit fds) (fd + 1) n f ≡ map_range (inherit fds) fd (suc n) f
inherit_closed fds fd n f h = rw (h, update_eta f fd) at (map_range-suc (inherit fds) fd n f)

module _ (services : Services) where
  open services use {World, kalloc, proc_pagetable, uvmcopy, idup}

  dup_lem :
      (f : ℕ) (k : Kernel World)
      → 1 ≤ (k.ftable (f - 1)).ref
      → dup services f k ≡ ok tt (record k { ftable = bump (f - 1) k.ftable })
  unfolding dup filedup
  dup_lem f k h = rw (positive (k.ftable (f - 1)).ref h, dup)

  dup_files_lem :
      (n fd me np : ℕ) (k : Kernel World)
      → me ≢ np
      → Live (k.procs me).ofile k.ftable
      → dup_files services n fd me np k
        ≡ ok tt (record k {
          ftable = dup_refs n fd (k.procs me).ofile k.ftable;
          procs = update k.procs np (record (k.procs np) {
            ofile = map_range (inherit (k.procs me).ofile) fd n (k.procs np).ofile;
          });
        })
  unfolding dup_files dup_refs
  dup_files_lem zero fd me np k ne live =
      rw (map_range-zero (inherit (k.procs me).ofile) fd (k.procs np).ofile, update_eta k.procs np)
  dup_files_lem (suc n) fd me np k ne live = elim (Bool-cases ((k.procs me).ofile fd /= 0)) [
    | inl opened ↦
        let fds = (k.procs me).ofile in
        let child = record (k.procs np) { ofile = update (k.procs np).ofile fd (fds fd) } in
        let k' = record k {
          ftable = bump (fds fd - 1) k.ftable;
          procs = update k.procs np child;
        } in
        rw (opened, dup_lem (fds fd) k (live fd (ground arith)))
          ((rw (==_ne me np ne, ==_self np) at
              (dup_files_lem n (fd + 1) me np k' ne
                (rw (==_ne me np ne) (Live-bump fds k.ftable (fds fd - 1) live))))
            ∙ rw (
              update_twice k.procs np child (record child {
                ofile = map_range (inherit fds) (fd + 1) n (update (k.procs np).ofile fd (fds fd));
              }),
              inherit_open fds fd n (k.procs np).ofile opened,
              dup_refs,
            ))
    | inr closed ↦
        let fds = (k.procs me).ofile in
        rw (
          closed,
          dup_files_lem n (fd + 1) me np k ne live,
          inherit_closed fds fd n (k.procs np).ofile closed,
          dup_refs,
        )
  ]

  -- what `copy_process` leaves in the child's entry
  abbrev pub heir : Proc → ℕ → Proc → Proc
  heir p a0 q = record q {
    sz = p.sz;
    frame = record p.frame { a0 = a0 };
    ofile = map_range (inherit p.ofile) 0 nofile q.ofile;
    cwd = p.cwd;
    name = safestrcpy q.name p.name 16;
  }

  pub copy_process_lem :
      (me np a0 : ℕ) (k : Kernel World)
      → me ≢ np
      → Live (k.procs me).ofile k.ftable
      → copy_process services me np a0 k
        ≡ ok tt (record k {
          ftable = dup_refs nofile 0 (k.procs me).ofile k.ftable;
          procs = update k.procs np (heir (k.procs me) a0 (k.procs np));
          world = idup (k.procs me).cwd k.world;
        })
  unfolding copy_process
  copy_process_lem me np a0 k ne live =
      let p = k.procs me in
      let q = k.procs np in
      let begun = record q { sz = p.sz; frame = record p.frame { a0 = a0 } } in
      let k' = record k { procs = update k.procs np begun } in
      rw
        (
          rw (==_ne me np ne, ==_self np) at
              (dup_files_lem nofile 0 me np k' ne (rw (==_ne me np ne) live)),
          ==_self np,
        )
        (simp update_twice)

  -- In the state `k` a child can be allocated in the slot `np` and its memory be copied.
  pub record CopyWorks (k : Kernel World) (np page pagetable : ℕ) (w1 w2 w3 : World) : Type 0 where
    pub free : (j : ℕ) → k.locks j ≡ false
    pub pid_free : k.pid_lock ≡ false
    pub wait_free : k.wait_lock ≡ false
    pub live : Live (k.procs k.current).ofile k.ftable
    pub slot : find_unused nproc first_proc k.procs ≡ some np
    pub other : k.current ≢ np
    pub page_ok : kalloc k.world ≡ (page, w1)
    pub page_ne : page ≢ 0
    pub table_ok : proc_pagetable page w1 ≡ (pagetable, w2)
    pub table_ne : pagetable ≢ 0
    pub copy :
        uvmcopy (k.procs k.current).pagetable pagetable (k.procs k.current).sz w2 ≡ (true, w3)

  -- the state in which the child stands in the slot
  abbrev pub forked : Kernel World → ℕ → ℕ → ℕ → World → Kernel World
  forked k np page pagetable w3 = record k {
    nextpid = k.nextpid + 1;
    ftable = dup_refs nofile 0 (k.procs k.current).ofile k.ftable;
    procs =
        update k.procs np
          (record (heir (k.procs k.current) 0
            (fresh services k.nextpid page pagetable (k.procs np))) {
              parent = k.current;
              state = runnable;
            });
    world = idup (k.procs k.current).cwd w3;
  }

  module _ {k : Kernel World} {np page pagetable : ℕ} {w1 w2 w3 : World}
      (c : CopyWorks k np page pagetable w1 w2 w3) where
    -- When a child can be allocated and its memory copied, `fork` returns the next process number.
    -- The slot holds a runnable child of the caller with that number, whose registers are the
    -- caller's but for `a0`, which is 0; each open file has a reference more for each descriptor; no
    -- other entry changes, and every lock is as it was.
    pub fork-copy_works : fork services k ≡ ok (some k.nextpid) (forked k np page pagetable w3)
    unfolding fork
    fork-copy_works =
        let q = fresh services k.nextpid page pagetable (k.procs np) in
        let k' =
          held (record k { nextpid = k.nextpid + 1; procs = update k.procs np q; world = w3 }) np in
        let h = heir (k.procs k.current) 0 q in
        let owned = record h { parent = k.current } in
        let with_parent = record k {
          nextpid = k.nextpid + 1;
          ftable = dup_refs nofile 0 (k.procs k.current).ofile k.ftable;
          procs = update k.procs np owned;
          world = idup (k.procs k.current).cwd w3;
        } in
        let copied = record k {
          nextpid = k.nextpid + 1;
          ftable = dup_refs nofile 0 (k.procs k.current).ofile k.ftable;
          procs = update k.procs np h;
          world = idup (k.procs k.current).cwd w3;
        } in
        rw (
          allocproc_lem services k c.free,
          c.slot,
          found-some services np page pagetable w1 w2 (held k np) c.pid_free c.page_ok c.page_ne
              c.table_ok c.table_ne,
          ==_ne k.current np c.other,
          ==_self np,
          c.copy,
          rw (==_ne k.current np c.other, ==_self np) at
              (copy_process_lem k.current np 0 k' c.other (rw (==_ne k.current np c.other) c.live)),
          ==_self np,
          update_twice k.procs np q h,
          release-held copied np (c.free np),
          acquire_wait-ok copied c.wait_free,
          ==_self np,
          update_twice k.procs np h owned,
          release_wait-ok with_parent c.wait_free,
          acquire-held with_parent np (c.free np),
          ==_self np,
          update_twice k.procs np owned (record owned { state = runnable }),
          release-held (forked k np page pagetable w3) np (c.free np),
        )
