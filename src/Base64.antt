-- ===== src/Base64.antt =====
-- src/misc/rp-base64.c. `Base64/Encode` and `Base64/Decode` hold the two functions.
pub mod Result
pub mod Encode
pub mod Decode
pub mod Layout
pub mod Rounds
pub mod Text
pub mod Accepted
pub mod RoundTrip
mod Tests
