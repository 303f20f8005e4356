-- ===== src/Bytes.antt =====
-- src/protocol/bytes.ts: the bounds-checked readers and writers of protocol records.
-- A Buffer is the list of its bytes. `#context` and the `field` arguments only word the messages
-- of errors, and are left out.
pub mod Reader
pub mod Writer
pub mod Words
pub mod Append
pub mod Cursor
pub mod Fields
mod Tests
