-- ===== src/Queue.antt =====
-- include/lockfree_queue.h: `LockFreeSPSCQueue<T, Size>`. `Defs` has each method run without
-- another thread in between, and `Threads` the same methods one shared access at a time; `Network`
-- has many threads and queues.
-- `Size` is `2 ^ k`, as its static_assert wants; the queues of messages have k = 20.
pub mod Defs
pub mod Index
pub mod Slots
pub mod Layout
pub mod Fifo
pub mod Refine
pub mod RoundTrip
pub mod History
pub mod Client
pub mod Threads
pub mod Network
mod Tests
