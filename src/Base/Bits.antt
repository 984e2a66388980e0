-- ===== src/Base/Bits.antt =====
-- The bits of a word, one by one: what the shifts and bit operations of C do to them.
mod Step
mod Laws
mod Join
pub use Laws.*
pub use Join.*
