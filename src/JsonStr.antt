-- ===== src/JsonStr.antt =====
-- src/json/rp-jsonstr.c: JSON texts without objects. Escape is the escaping of strings, Reading and
-- Values are the test of a text.
pub mod Escape
pub mod Escaped
pub mod Reading
pub mod Grammar
pub mod Rest
pub mod Exact
pub mod ExactScalars
pub mod ExactNumbers
pub mod Positions
pub mod Sizes
pub mod Firsts
pub mod ExactParts
pub mod Complete
pub mod Scalars
pub mod Numbers
pub mod Parts
pub mod Sound
pub mod Verdict
pub mod Strings
pub mod Values
mod Tests
