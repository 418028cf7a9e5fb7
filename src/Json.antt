-- ===== src/Json.antt =====
-- Values that `JSON.parse` returns, and the reads that the controllers make of them: `typeof`
-- tests, property reads, truthiness. The validators of every controller stand on these.
mod Values
mod Reads
pub mod Laws
pub use Values.*
unfoldable pub use Reads.*
