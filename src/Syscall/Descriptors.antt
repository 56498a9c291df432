-- ===== src/Syscall/Descriptors.antt =====
-- The descriptor table of a process.
use pa.Common.{
  ℕ, zero, suc, ◌+◌, ◌^◌, ◌≤◌, ◌<◌, ◌≡◌, ◌≢◌, refl, ap, ◌⊎◌, inl, inr, not, ◌&&◌, none, some, ltb,
  ◌==◌, if◌then◌else◌, update, arith, Bool-cases, pos, negsuc, ℕ_discrete,
}
use pa.Syscall.{User, to_int, argint, num_files, argfd, fd_from, fdalloc, sys_dup}

-- What a search for a free descriptor comes to.
fd_from_lem :
    (n fd f : ℕ) (ofile : ℕ → ℕ)
    → ((fd_from n fd f ofile ≡ (ofile, none)) × ((j : ℕ) → fd ≤ j → j < fd + n → ofile j ≢ 0))
      ⊎ ((new : ℕ) × (fd_from n fd f ofile ≡ (update ofile new f, some new))
          × (fd ≤ new)
          × (new < fd + n)
          × (ofile new ≡ 0)
          × ((j : ℕ) → fd ≤ j → j < new → ofile j ≢ 0))
unfolding fd_from
fd_from_lem zero fd f ofile = inl (refl, λ j low high. absurd (omega arith))
fd_from_lem (suc n) fd f ofile = elim (Bool-cases (ofile fd == 0)) [
  | inl free ↦
      inr (
        fd,
        rw free refl,
        omega arith,
        omega arith,
        ground arith,
        λ j low high. absurd (omega arith),
      )
  | inr taken ↦
      let here : ofile fd ≢ 0 = ground arith in
      elim (fd_from_lem n (fd + 1) f ofile) [
        | inl (e, full) ↦ inl (
          rw taken e,
          λ j low high. elim (ℕ_discrete j fd) [
            | yes same ↦ rw same here
            | no later ↦ full j (omega arith) (omega arith)
          ],
        )
        | inr (new, e, low, high, free, before) ↦ inr (
          new,
          rw taken e,
          omega arith,
          omega arith,
          free,
          λ j lo hi. elim (ℕ_discrete j fd) [
            | yes same ↦ rw same here
            | no later ↦ before j (omega arith) hi
          ],
        )
      ]
]

-- fdalloc puts the file at the lowest free descriptor and returns that; with all 16 in use it
-- fails and changes nothing.
pub fdalloc_lem :
    (f : ℕ) (ofile : ℕ → ℕ)
    → ((fdalloc f ofile ≡ (ofile, none)) × ((j : ℕ) → j < num_files → ofile j ≢ 0))
      ⊎ ((new : ℕ) × (fdalloc f ofile ≡ (update ofile new f, some new))
          × (new < num_files)
          × (ofile new ≡ 0)
          × ((j : ℕ) → j < new → ofile j ≢ 0))
unfolding fdalloc
fdalloc_lem f ofile = elim (fd_from_lem num_files 0 f ofile) [
  | inl (e, full) ↦ inl (e, λ j h. full j (omega arith) (omega arith))
  | inr (new, e, low, high, free, before) ↦
      inr (new, e, omega arith, free, λ j h. before j (omega arith) h)
]

-- When the argument word can be fetched, argfd returns it with its file exactly when it is a
-- descriptor below 16 that is open, and fails otherwise.
pub argfd_lem :
    (u : User) (mem : ℕ → ℕ) (ofile : ℕ → ℕ) (n fd : ℕ)
    → argint u mem n ≡ some fd
    → fd < 2 ^ 32
    → argfd u mem ofile n
      ≡ (if ltb fd num_files && not (ofile fd == 0) then some (fd, ofile fd) else none)
unfolding argfd to_int
argfd_lem u mem ofile n fd h small = rw (argfd, h) (ground arith)

-- dup of an open descriptor either finds all 16 in use, returns -1 and changes nothing, or opens
-- the lowest free descriptor with the same file, takes one more reference to that, and returns the
-- descriptor.
pub sys_dup_lem :
    {W : Type 0} (filedup fileclose : W → ℕ → W) (u : User) (mem : ℕ → ℕ) (w : W) (ofile : ℕ → ℕ)
    (old : ℕ)
    → argfd u mem ofile 0 ≡ some (old, ofile old)
    → ((sys_dup filedup fileclose u mem w ofile ≡ (w, ofile, negsuc 0))
        × ((j : ℕ) → j < num_files → ofile j ≢ 0))
      ⊎ ((new : ℕ) × (sys_dup filedup fileclose u mem w ofile
            ≡ (filedup w (ofile old), update ofile new (ofile old), pos new))
          × (new < num_files)
          × (ofile new ≡ 0)
          × ((j : ℕ) → j < new → ofile j ≢ 0))
unfolding sys_dup
sys_dup_lem filedup fileclose u mem w ofile old h = elim (fdalloc_lem (ofile old) ofile) [
  | inl (e, full) ↦ inl (rw (sys_dup, h, ap (λ r. r.1) e, ap (λ r. r.0) e) refl, full)
  | inr (new, e, small, free, before) ↦
      inr (new, rw (sys_dup, h, ap (λ r. r.1) e, ap (λ r. r.0) e) refl, small, free, before)
]
