-- ===== src/Prelude/JsMap.antt =====
-- `Map` with string keys: the entries in the order in which their keys were first added.
mod Laws
pub use Laws.*
pub mod Defs
unfoldable pub use Defs.{JsMap, get, has, put, remove, values, keys, index, index_onto}
pub use Defs.{UniqueKeys, Keyed, AllValues, Apart}
