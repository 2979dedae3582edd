-- ===== src/U16id.antt =====
-- src/sandbox/u16id.c: maps from 16 bit identifiers to pointers and to bits, for pointers of 64 bits.
-- Memory and Block are the flat block, Pointers and Bits the two maps.
pub mod Memory
pub mod Block
pub mod Slots
pub mod Moves
pub mod Lookup
pub mod Adding
pub mod Growing
pub mod Update
pub mod Dropping
pub mod Removal
pub mod Map
pub mod Deletion
pub mod Pointers
pub mod Bits
mod Tests
