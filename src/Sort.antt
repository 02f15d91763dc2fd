-- ===== src/Sort.antt =====
-- Python's `list.sort` and `sorted` with `key=…, reverse=True`: descending by a key that is
-- compared by `<` alone, and stable, so that elements with equal keys keep their order.
mod Defs
pub mod Laws
unfoldable pub use Defs.{insert_desc, sort_desc}
