-- ===== src/Std.antt =====
-- The containers of the C++ standard library that the program uses.
pub mod OrderedSet
pub mod OrderedMap
pub mod Word
