-- ===== src/ExpandVars.antt =====
-- src/misc/rp-expand-vars.c: expansion of `$name`, `${name}`, `$(name)` with defaults and escapes.
-- `ExpandVars/Scan` is the inner loop of `expand`, `ExpandVars/Expand` the outer one, and
-- `ExpandVars/Search` the resolution of names in arrays of definitions, and `ExpandVars/Calls` the
-- functions that take a callback or other arrays.
pub mod Scan
pub mod Expand
pub mod Calls
pub mod Search
mod Tests
