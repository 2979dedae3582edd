-- ===== src/EvMgr.antt =====
-- src/sandbox/ev-mgr.c: the event loop with its file descriptors, timers and preparers.
pub mod Model
pub mod Timers
pub mod Narrowing
pub mod Slice
pub mod Arming
pub mod Firing
pub mod Due
pub mod Fds
pub mod Prepares
pub mod Loop
pub mod Watching
pub mod States
pub mod Lifetime
pub mod Lone
pub mod Closing
pub mod Sound
pub mod FiredSound
pub mod FdSound
pub mod TimerSound
pub mod Reach
pub mod Safe
pub mod LifeSafe
pub mod Reachable
mod Tests
mod ReachTests
