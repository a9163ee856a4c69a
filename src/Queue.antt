-- ===== src/Queue.antt =====
-- pkg/event/queue.go and stackwalk.go: the queue that events pass on their way to the listeners, and
-- the decorator that holds an event back until its callstack arrives.
pub mod Decorator
pub mod Push
pub mod Frames
pub mod Fifo
pub mod Popping
pub mod Blocking
pub mod Flush
pub mod Deadlock
