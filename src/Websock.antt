-- ===== src/Websock.antt =====
-- src/sandbox/websock.c: the frames of web sockets, as they are written and as their heads are read.
pub mod Frame
pub mod Receive
pub mod Dispatch
pub mod Unmask
pub mod Reading
pub mod Dropping
pub mod Gathering
pub mod Heads
pub mod Arriving
pub mod Parts
pub mod Delivery
pub mod Control
mod Tests
