-- ===== src/SysFile/Branches.antt =====
-- The end of sys_open: a file and a descriptor for a locked inode, or the way back.
use pa.Common.{
  ℕ, zero, suc, ◌+◌, ◌^◌, ◌≤◌, ◌<◌, ◌≡◌, ◌≢◌, ◌⊎◌, refl, sym, ap, ap₂, ◌∙◌, subst, true, false, not,
  Option, Option-cases, none, some, ◌||◌, ltb, ◌==◌, eq_self, ==_iff, Bool-cases, inl, inr, arith,
  pos, negsuc, update,
}
use pa.Fs.{fd_none, fd_inode, File, Fs, ok, continue, pure}
use pa.Inode.{positive, iunlock, iunlockput}
use pa.Syscall.{fdalloc}
use pa.Syscall.Descriptors.{fdalloc_lem}
use pa.File.{num_files, free_file, filealloc, fileclose, close_last}
use pa.SysFile.{open_fd, open_inode, has_bit, o_wronly, o_rdwr}

-- What the scan of filealloc finds from slot `f` on.
abbrev Free : (ℕ → File) → (f n : ℕ) → Option ℕ → Type 0
Free files f n none = (g : ℕ) → f ≤ g → g < f + n → (files g).ref ≢ 0
Free files f n (some k) = (f ≤ k) × (k < f + n) × ((files k).ref ≡ 0)

free_file-Free : (n f : ℕ) (files : ℕ → File) → Free files f n (free_file n f files)
unfolding free_file
free_file-Free zero f files = λ g ge lt. absurd (omega arith)
free_file-Free (suc n) f files = elim (Bool-cases ((files f).ref == 0)) [
  | inl free ↦ rw free (omega arith, omega arith, ground arith)
  | inr busy ↦ rw busy (more busy (free_file n (f + 1) files) (free_file-Free n (f + 1) files))
]
  where
    more :
        ((files f).ref == 0) ≡ false
        → (o : Option ℕ) → Free files (f + 1) n o
        → Free files f (suc n) o
    more busy none h = λ g ge lt. elim (Bool-cases (g == f)) [
      | inl e ↦ λ z. let same = ap (λ x. (files x).ref) ((==_iff g f).0 e) in ground arith
      | inr ne ↦ h g (ground arith) (omega arith)
    ]
    more busy (some k) h = (omega (arith, h.0), omega (arith, h.1), h.2)

-- what sys_open sets in its file
abbrev configured : (ip omode : ℕ) → File → File
configured ip omode x = record x {
  type = fd_inode;
  ip = ip;
  off = 0;
  readable = not (has_bit omode o_wronly);
  writable = has_bit omode o_wronly || has_bit omode o_rdwr;
}

-- the file that sys_open sets up
abbrev opened : (ip omode : ℕ) → File → File
opened ip omode x = configured ip omode (record x { ref = 1 })

-- A descriptor `d` of the 16 for the file in slot `f` of the 100, which was free, and the inode unlocked.
pub record Opens (s : Fs) (ip omode f d : ℕ) (s' : Fs) : Type 0 where
  pub slot_inside : f < 100
  pub slot : (s.files f).ref ≡ 0
  pub descriptor_inside : d < 16
  pub vacant : s.ofile d ≡ 0
  pub lowest : (j : ℕ) → j < d → s.ofile j ≢ 0
  pub descriptors : s'.ofile ≡ update s.ofile d (f + 1)
  pub file : s'.files f ≡ opened ip omode (s.files f)
  pub others : (g : ℕ) → g ≢ f → s'.files g ≡ s.files g
  pub unlocked : s'.icache ip ≡ (record (s.icache ip) { locked = false })
  pub other_inodes : (i : ℕ) → i ≢ ip → s'.icache i ≡ s.icache i
  pub rest : s' ≡ (record s { ofile = s'.ofile; files = s'.files; icache = s'.icache })

-- the file table with one more file
abbrev taken : ℕ → Fs → Fs
taken f s = record s { files = update s.files f (record (s.files f) { ref = 1 }) }

-- the file table with one file less
abbrev released : ℕ → Fs → Fs
released f s = record s {
  files = update s.files f (record (s.files f) { ref = 0; type = fd_none });
}

fileclose-released :
    (s : Fs) (f : ℕ)
    → (s.files f).ref ≡ 1
    → (s.files f).type ≡ fd_none
    → fileclose f s ≡ ok tt (released f s)
unfolding fileclose close_last
fileclose-released s f one closed =
    let counted : positive (2 ^ 31) (s.files f).ref ≡ true = ground (arith, one) in
    let last : ltb 1 (s.files f).ref ≡ false = ground (arith, one) in
    rw (counted, last, closed) refl

released-taken :
    (s : Fs) (f g : ℕ)
    → (s.files f).ref ≡ 0
    → (s.files f).type ≡ fd_none
    → (released f (taken f s)).files g ≡ s.files g
released-taken s f g free closed = elim (Bool-cases (g == f)) [
  | inr ne ↦ rw ne refl
  | inl e ↦
      rw (e, eq_self f)
        (ap₂ (λ r t. record (s.files f) { ref = r; type = t }) (sym free) (sym closed)
          ∙ ap s.files (sym ((==_iff g f).0 e)))
]

filealloc-taken :
    (s : Fs) (f : ℕ)
    → free_file num_files 0 s.files ≡ some f
    → filealloc s ≡ ok (some f) (taken f s)
unfolding filealloc
filealloc-taken s f found = rw (filealloc, found) refl

filealloc-none : (s : Fs) → free_file num_files 0 s.files ≡ none → filealloc s ≡ ok none s
unfolding filealloc
filealloc-none s found = rw (filealloc, found) refl

open_fd_lem :
    (s : Fs) (f : ℕ) (ofile : ℕ → ℕ) (fd : Option ℕ)
    → fdalloc (f + 1) s.ofile ≡ (ofile, fd)
    → open_fd f s ≡ ok fd (record s { ofile = ofile })
unfolding open_fd
open_fd_lem s f ofile fd e = rw (ap (λ r. r.0) e, ap (λ r. r.1) e) refl

iunlock_lem :
    (s : Fs) (ip : ℕ)
    → (s.icache ip).locked ≡ true
    → positive (2 ^ 31) (s.icache ip).ref ≡ true
    → iunlock ip s
      ≡ ok tt (record s { icache = update s.icache ip (record (s.icache ip) { locked = false }) })
unfolding iunlock
iunlock_lem s ip locked counted = rw (locked, counted) refl

-- What the end of sys_open does, for a locked inode in use.
abbrev pub OpenInode : Fs → (ip omode : ℕ) → Type 0
OpenInode s ip omode =
    (((f : ℕ) → f < 100 → (s.files f).ref ≢ 0)
      × (open_inode ip omode s ≡ continue (iunlockput ip s) (λ x. pure (negsuc 0))))
    ⊎ (((f : ℕ) × (f < 100)
          × ((s.files f).ref ≡ 0)
          × ((d : ℕ) → d < 16 → s.ofile d ≢ 0)
          × (s' : Fs) × ((g : ℕ) → s'.files g ≡ s.files g)
          × (s' ≡ (record s { files = s'.files }))
          × (open_inode ip omode s ≡ continue (iunlockput ip s') (λ x. pure (negsuc 0))))
        ⊎ ((f : ℕ) × (d : ℕ) × (s' : Fs) × (open_inode ip omode s ≡ ok (pos d) s')
            × Opens s ip omode f d s'))

-- With a free file but no free descriptor.
open_inode-full :
    (s : Fs) (ip omode f : ℕ)
    → free_file num_files 0 s.files ≡ some f
    → (s.files f).ref ≡ 0
    → (s.files f).type ≡ fd_none
    → fdalloc (f + 1) s.ofile ≡ (s.ofile, none)
    → (s' : Fs) × ((g : ℕ) → s'.files g ≡ s.files g)
      × (s' ≡ (record s { files = s'.files }))
      × (open_inode ip omode s ≡ continue (iunlockput ip s') (λ x. pure (negsuc 0)))
unfolding open_inode
open_inode-full s ip omode f found free closed full =
    let t = taken f s in
    let one : (t.files f).ref ≡ 1 = rw (eq_self f) refl in
    let none_type : (t.files f).type ≡ fd_none = rw (eq_self f) closed in
    (
      released f t,
      λ g. released-taken s f g free closed,
      refl,
      rw
          (
            filealloc-taken s f found,
            open_fd_lem t f s.ofile none full,
            fileclose-released t f one none_type,
          )
          refl,
    )

open_inode-Opens :
    (s : Fs) (ip omode f d : ℕ)
    → (s.icache ip).locked ≡ true
    → positive (2 ^ 31) (s.icache ip).ref ≡ true
    → free_file num_files 0 s.files ≡ some f
    → f < num_files
    → (s.files f).ref ≡ 0
    → fdalloc (f + 1) s.ofile ≡ (update s.ofile d (f + 1), some d)
    → d < 16
    → s.ofile d ≡ 0
    → ((j : ℕ) → j < d → s.ofile j ≢ 0)
    → (s' : Fs) × (open_inode ip omode s ≡ ok (pos d) s') × Opens s ip omode f d s'
unfolding open_inode
open_inode-Opens s ip omode f d locked counted found inside free got below vacant lowest =
    let t = taken f s in
    let t2 : Fs = record t { ofile = update s.ofile d (f + 1) } in
    let t3 : Fs = record t2 {
      icache = update s.icache ip (record (s.icache ip) { locked = false });
    } in
    (
      record t3 { files = update t.files f (configured ip omode (t.files f)) },
      rw
          (
            filealloc-taken s f found,
            open_fd_lem t f (update s.ofile d (f + 1)) (some d) got,
            iunlock_lem t2 ip locked counted,
          )
          refl,
      record {
        slot_inside = inside;
        slot = free;
        descriptor_inside = below;
        vacant = vacant;
        lowest = lowest;
        descriptors = refl;
        file = rw (eq_self f) refl;
        others = λ g ne. ground arith;
        unlocked = rw (eq_self ip) refl;
        other_inodes = λ i ne. ground arith;
        rest = refl;
      },
    )

-- For a locked inode in use, when the free slots of the file table have the type FD_NONE, the end of
-- sys_open does one of three things. With no free file among the 100 it puts the inode back and returns -1. With
-- a free file but all 16 descriptors in use it does the same and leaves the file table as it was.
-- Otherwise it returns the lowest free descriptor, which is below 16 and then names a file at offset 0 of the inode, open as the
-- mode says, the inode is unlocked, and nothing else has changed.
pub open_inode_lem :
    (s : Fs) (ip omode : ℕ)
    → (s.icache ip).locked ≡ true
    → positive (2 ^ 31) (s.icache ip).ref ≡ true
    → ((f : ℕ) → (s.files f).ref ≡ 0 → (s.files f).type ≡ fd_none)
    → OpenInode s ip omode
unfolding open_inode
open_inode_lem s ip omode locked counted closed =
    elim (Option-cases (free_file num_files 0 s.files)) [
      | inl busy ↦ inl (
        λ f lt.
            subst (Free s.files 0 num_files) busy (free_file-Free num_files 0 s.files) f
              (omega arith) (omega arith),
        rw (filealloc-none s busy) refl,
      )
      | inr (f, found) ↦
          let free = subst (Free s.files 0 num_files) found (free_file-Free num_files 0 s.files) in
          elim (fdalloc_lem (f + 1) s.ofile) [
            | inl (full, all) ↦
                let way = open_inode-full s ip omode f found free.2 (closed f free.2) full in
                inr (inl (f, omega (arith, free.1), free.2, all, way.0, way.1, way.2, way.3))
            | inr (d, got, lt, vacant, lowest) ↦
                let way =
                  open_inode-Opens s ip omode f d locked counted found (omega (arith, free.1))
                    free.2 got lt vacant lowest in
                inr (inr (f, d, way.0, way.1, way.2))
          ]
    ]
