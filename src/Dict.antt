-- ===== src/Dict.antt =====
-- Python's `dict` as an association list in insertion order, and `set` as a list without
-- repetition. Both are used by every component; their laws stand in the child modules.
mod Defs
mod Laws
mod Sets
unfoldable pub use Defs.*
pub use Laws.*
unfoldable pub use Sets.*
