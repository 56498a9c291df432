-- ===== src/Fs/Example.antt =====
-- A small file system for the tests of fs.c, file.c and sysfile.c: a root directory with a small
-- file "f" and a file "g", all in the cache of inodes.
use pa.Common.{
  ℕ, ◌==◌, true, false, none, [], ◌∷◌, List, ltb, leb, ◌&&◌, if◌then◌else◌, get_or, ◌++◌,
}
use pa.Fs.{Super, Dinode, Inode, File, fd_none, Fs, t_dir, t_file, t_sfile}

abbrev super_block : Super
super_block = record {
  size = 20;
  nblocks = 16;
  ninodes = 8;
  nlog = 0;
  logstart = 2;
  inodestart = 2;
  bmapstart = 3;
}

-- the content of the root directory, in block 4: ".", "..", "f" and "g"
abbrev root_bytes : List ℕ
root_bytes =
    (1 ∷ 0 ∷ 46 ∷ 0 ∷ 0 ∷ 0 ∷ 0 ∷ 0 ∷ 0 ∷ 0 ∷ 0 ∷ 0 ∷ 0 ∷ 0 ∷ 0 ∷ 0 ∷ [])
    ++ (1 ∷ 0 ∷ 46 ∷ 46 ∷ 0 ∷ 0 ∷ 0 ∷ 0 ∷ 0 ∷ 0 ∷ 0 ∷ 0 ∷ 0 ∷ 0 ∷ 0 ∷ 0 ∷ [])
    ++ (2 ∷ 0 ∷ 102 ∷ 0 ∷ 0 ∷ 0 ∷ 0 ∷ 0 ∷ 0 ∷ 0 ∷ 0 ∷ 0 ∷ 0 ∷ 0 ∷ 0 ∷ 0 ∷ [])
    ++ (3 ∷ 0 ∷ 103 ∷ 0 ∷ 0 ∷ 0 ∷ 0 ∷ 0 ∷ 0 ∷ 0 ∷ 0 ∷ 0 ∷ 0 ∷ 0 ∷ 0 ∷ 0 ∷ [])

-- the addresses of a file with one block
abbrev one_block : ℕ → ℕ → ℕ
one_block b i = if i == 0 then b else 0

-- "abc", kept in the inode
abbrev abc : ℕ → ℕ
abc i = get_or (97 ∷ 98 ∷ 99 ∷ []) i 0

abbrev dinode_at : ℕ → Dinode
dinode_at i =
    if i == 1
    then record { type = t_dir; major = 0; minor = 0; nlink = 1; size = 64; addrs = one_block 4 }
    else if i == 2
    then record { type = t_sfile; major = 0; minor = 0; nlink = 1; size = 3; addrs = abc }
    else if i == 3
    then record { type = t_file; major = 0; minor = 0; nlink = 1; size = 2; addrs = one_block 5 }
    else record { type = 0; major = 0; minor = 0; nlink = 0; size = 0; addrs = λ i. 0 }

-- inode `inum` as it is cached, unlocked and with one reference
abbrev pub in_core : ℕ → Inode
in_core inum =
    let d = dinode_at inum in
    record {
      dev = 1;
      inum = inum;
      ref = 1;
      locked = false;
      valid = true;
      type = d.type;
      major = d.major;
      minor = d.minor;
      nlink = d.nlink;
      size = d.size;
      addrs = d.addrs;
    }

abbrev pub no_inode : Inode
no_inode = record {
  dev = 0;
  inum = 0;
  ref = 0;
  locked = false;
  valid = false;
  type = 0;
  major = 0;
  minor = 0;
  nlink = 0;
  size = 0;
  addrs = λ i. 0;
}

abbrev pub no_file : File
no_file = record {
  type = fd_none;
  ref = 0;
  readable = false;
  writable = false;
  pipe = 0;
  ip = 0;
  off = 0;
}

-- Slot i of the cache holds inode i, for the root and the two files.
abbrev pub small_fs : Fs
small_fs = record {
  sb = super_block;
  super = super_block;
  bits = λ k i. ltb i 6;
  dinodes = λ k i. dinode_at i;
  bytes = λ b i. if b == 4 then get_or root_bytes i 0 else if b == 5 then 7 else 0;
  icache = λ i. if leb 1 i && leb i 3 then in_core i else no_inode;
  cwd = 1;
  readers = λ major. none;
  writers = λ major. none;
  files = λ i. no_file;
  pipes = λ i. record { buf = λ j. 0; nread = 0; nwrite = 0; readopen = false; writeopen = false };
  freelist = 4096 ∷ 8192 ∷ [];
  ofile = λ fd. 0;
  user = record { sz = 4096; esp = 1000 };
  mem = λ i. 0;
  killed = false;
}
