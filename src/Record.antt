-- ===== src/Record.antt =====
-- internal/record: pull events (Event) and the queue that carries them to the store (Queue).
pub mod Event
pub mod Queue
