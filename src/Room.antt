-- ===== src/Room.antt =====
-- internal/room: the chat-visible state of a room, projected from session events. The lock is left
-- out, as each method holds it from end to end. `id`, which no operation changes, is a field; the
-- observer and the queue of events are not.
pub mod Records
pub mod Handoff
pub mod Projection
pub mod Delta
pub mod Frame
pub mod Steps
pub mod History
pub mod Sync
pub mod Available
pub mod Streams
pub mod Marks
pub mod Sources
mod Tests
