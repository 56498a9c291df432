-- ===== src/Syscall/Tests.antt =====
-- System calls of a small process whose arguments stand at the address 100.
use pa.Common.{
  ℕ, ◌+◌, ◌*◌, ◌%◌, ◌^◌, ◌≤◌, ◌<◌, ◌≡◌, ◌≢◌, refl, ◌⊎◌, true, false, not, ◌&&◌, none, some, ltb,
  leb, ◌==◌, if◌then◌else◌, update, arith, pos, negsuc, List, [], ◌∷◌,
}
use pa.Syscall.{
  User, read_word, write_word, fetchint, find_nul, fetchstr, argint, outside_user, argptr,
  num_counts, updatecount, copy_counts, getcount, argfd, fdalloc, num_files, sys_dup, to_int,
  Trapped,
}
use pa.Syscall.Args.{fetchint_lem, argptr_lem, fetchstr_lem}
use pa.Syscall.Counts.{count_of, occurrences, updatecount-beyond, getcount_lem}
use pa.Syscall.Dispatch.{run_traps, run_traps-counts}
use pa.Syscall.Descriptors.{fdalloc_lem, argfd_lem, sys_dup_lem}

abbrev small_user : User
small_user = record { sz = 4096; esp = 96 }

-- the first argument is 200, the second 92
abbrev small_mem : ℕ → ℕ
small_mem a = if a == 100 then 200 else if a == 104 then 92 else if a == 210 then 0 else 1

first_argument : argint small_user small_mem 0 ≡ some 0x10101c8
unfolding argint fetchint read_word
first_argument = refl

abbrev clean_mem : ℕ → ℕ
clean_mem a = if a == 100 then 200 else if a == 104 then 92 else 0

fetchint_lem_example :
    fetchint small_user clean_mem 4094
    ≡ (if leb (4094 + 4) 4096 then some (read_word clean_mem 4094) else none)
fetchint_lem_example = fetchint_lem small_user clean_mem 4094 (omega arith) (omega arith)

zeroth : argint small_user clean_mem 0 ≡ some 200
unfolding argint fetchint read_word
zeroth = refl

argptr_lem_example :
    argptr small_user clean_mem 0 (pos 92)
    ≡ (if ltb 200 4096 && leb (200 + 92) 4096 then some 200 else none)
argptr_lem_example =
    argptr_lem small_user clean_mem 0 92 200 (omega arith) (omega arith) (omega arith) zeroth

fetchstr_lem_example :
    ((fetchstr small_user small_mem 200 ≡ none)
      × ((j : ℕ) → 200 ≤ j → j < small_user.sz → small_mem j ≢ 0))
    ⊎ ((len : ℕ) × (fetchstr small_user small_mem 200 ≡ some (200, len))
        × (200 + len < small_user.sz)
        × (small_mem (200 + len) ≡ 0)
        × ((j : ℕ) → 200 ≤ j → j < 200 + len → small_mem j ≢ 0))
fetchstr_lem_example = fetchstr_lem small_user small_mem 200

ten_bytes : fetchstr small_user small_mem 200 ≡ some (200, 10)
unfolding fetchstr find_nul
ten_bytes = refl

abbrev base : ℕ
base = 0x8010_0000

abbrev calls : List ℕ
calls = 7 ∷ 15 ∷ []

-- mkSmallFilesdir has the number 23.
updatecount-beyond_example :
    (count_of base (updatecount base clean_mem true 23).0 5 ≡ count_of base clean_mem 5)
    × (read_word (updatecount base clean_mem true 23).0 (base + 4 * 23)
        ≡ (read_word clean_mem (base + 4 * 23) + 1) % 2 ^ 32)
updatecount-beyond_example =
    updatecount-beyond base clean_mem 23 5 (omega arith) (omega arith) (omega arith)

-- A first call has set counter 1.
abbrev counted_mem : ℕ → ℕ
counted_mem a = if a == base + 4 then 1 else clean_mem a

returns_zero : (getcount small_user base counted_mem).1 ≡ pos 0
unfolding getcount argint argptr outside_user fetchint read_word to_int
returns_zero = refl

got_pair : getcount small_user base counted_mem ≡ ((getcount small_user base counted_mem).0, pos 0)
unfolding getcount argint argptr outside_user fetchint read_word to_int
got_pair = refl

counted-small : (x : ℕ) → x < num_counts → count_of base counted_mem x < 2 ^ 32
unfolding read_word
counted-small x h = ground arith

getcount_lem_example :
    (counts : ℕ) × (argint small_user counted_mem 0 ≡ some counts)
    × ((j : ℕ)
        → j < num_counts
        → read_word (getcount small_user base counted_mem).0 (counts + 4 * j)
          ≡ count_of base counted_mem j)
getcount_lem_example =
    getcount_lem small_user base counted_mem (getcount small_user base counted_mem).0 (omega arith)
      (omega arith) (omega arith) counted-small got_pair

-- A size of 23 bytes in a process that ends behind them passes, and byte 91 from the pointer on is
-- written behind the end of the process.
abbrev tight_user : User
tight_user = record { sz = 223; esp = 96 }

abbrev tight_mem : ℕ → ℕ
tight_mem a = if a == 100 then 200 else if a == 104 then 23 else if a == base + 91 then 9 else 0

overruns : (getcount tight_user base tight_mem).0 291 ≡ 9
unfolding getcount argint argptr outside_user fetchint read_word write_word to_int copy_counts
overruns = refl

abbrev files : ℕ → ℕ
files fd = if fd == 1 then 0 else 500

abbrev dup_mem : ℕ → ℕ
dup_mem a = if a == 100 then 2 else 0

fdalloc_lem_example :
    ((fdalloc 7 files ≡ (files, none)) × ((j : ℕ) → j < num_files → files j ≢ 0))
    ⊎ ((new : ℕ) × (fdalloc 7 files ≡ (update files new 7, some new))
        × (new < num_files)
        × (files new ≡ 0)
        × ((j : ℕ) → j < new → files j ≢ 0))
fdalloc_lem_example = fdalloc_lem 7 files

argued : argint small_user dup_mem 0 ≡ some 2
unfolding argint fetchint read_word
argued = refl

argfd_lem_example :
    argfd small_user dup_mem files 0
    ≡ (if ltb 2 num_files && not (files 2 == 0) then some (2, files 2) else none)
argfd_lem_example = argfd_lem small_user dup_mem files 0 2 argued (omega arith)

second_file : argfd small_user dup_mem files 0 ≡ some (2, files 2)
unfolding argfd argint fetchint read_word to_int
second_file = refl

abbrev count_dup : ℕ → ℕ → ℕ
count_dup w f = w + 1

sys_dup_lem_example :
    ((sys_dup count_dup count_dup small_user dup_mem 0 files ≡ (0, files, negsuc 0))
      × ((j : ℕ) → j < num_files → files j ≢ 0))
    ⊎ ((new : ℕ) × (sys_dup count_dup count_dup small_user dup_mem 0 files
          ≡ (count_dup 0 (files 2), update files new (files 2), pos new))
        × (new < num_files)
        × (files new ≡ 0)
        × ((j : ℕ) → j < new → files j ≢ 0))
sys_dup_lem_example = sys_dup_lem count_dup count_dup small_user dup_mem 0 files 2 second_file

-- Every call returns 0 and leaves memory alone.
abbrev idle : ℕ → Trapped ℕ → Trapped ℕ × ℕ
idle n k = (k, 0)

abbrev booted : Trapped ℕ
booted = record { eax = 0; mem = small_mem; init = false; inits = false; world = 0 }

run_traps-counts_example :
    count_of base (run_traps base idle (15 ∷ calls) booted).mem 15
    ≡ occurrences 15 (15 ∷ calls) % 2 ^ 32
run_traps-counts_example =
    run_traps-counts base idle (omega arith) (λ n k. refl) (λ n k x h. refl) 15 calls booted 15
      (omega arith, (omega arith, (omega arith, tt))) (omega arith) refl
