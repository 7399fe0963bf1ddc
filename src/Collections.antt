-- ===== src/Collections.antt =====
-- The ordered collections of the language's standard library.
pub mod BTreeMap
pub mod BTreeSet
