-- ===== src/Bind.antt =====
-- router/normalize.py: the binding of a query's values to the placeholders of a template. Parsing
-- SQL is sqlglot's; what the router asks of the parse trees are the fields of `SqlOps`.
mod Split
mod Groups
pub mod Scan
pub mod Spans
pub mod Reassembly
pub mod RoundTrip
pub mod Grouping
unfoldable pub use Split.{
  is_wildcard, strip_prefix, try_core, match_consts, chars, text_of, consts_of,
}
pub use Groups.{Args, SqlOps}
unfoldable pub use Groups.{
  loose_eq, same_group, add_spec, groups_from, binding_groups, collect, split_text, split_literal,
  merge, merge_from, merge_split, group_names, bind_template, decimal,
}
