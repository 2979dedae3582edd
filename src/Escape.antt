-- ===== src/Escape.antt =====
-- src/http/rp-escape.c: percent escapes of texts and of URLs.
pub mod Chars
pub mod Buffer
pub mod Encode
pub mod Decode
pub mod Escaped
pub mod RoundTrip
pub mod Malformed
pub mod Url
pub mod UrlForm
pub mod UrlWriting
pub mod UrlText
pub mod Args
pub mod ArgsParts
pub mod ArgsText
pub mod ArgsCount
pub mod ArgsReading
pub mod ArgsRoundTrip
mod Tests
