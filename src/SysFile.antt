-- ===== src/SysFile.antt =====
-- sysfile.c: the system calls on files. Their transactions are those of log.c; the calls of begin_op and
-- end_op around them are left out.
mod Args
mod Link
mod Open
mod Ends
pub mod Branches
mod Tests
unfoldable pub use Args.*
unfoldable pub use Link.*
unfoldable pub use Open.*
unfoldable pub use Ends.*
