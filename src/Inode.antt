-- ===== src/Inode.antt =====
-- fs.c, the inodes: their allocation, the cache of inodes in use, and their content.
mod Slots
mod Extents
mod Content
pub mod Small
pub mod Evict
pub mod Cache
pub mod Map
pub mod Place
pub mod Updated
pub mod Bmap
pub mod Read
pub mod Write
pub mod Whole
pub mod Mapped
mod Tests
unfoldable pub use Slots.*
unfoldable pub use Extents.*
unfoldable pub use Content.*
