-- ===== src/Lz4.antt =====
-- src/protocol/lz4-block.ts: the decoder and the encoder of raw LZ4 blocks.
-- The wiping of buffers (`fill(0)`) is not modelled: the buffers that are wiped are private copies.
pub mod Decode
pub mod Encode
pub mod Bounds
pub mod Lengths
pub mod Writes
pub mod Sequence
pub mod Unchecked
pub mod Checks
pub mod Copy
pub mod Rounds
pub mod RoundTrip
pub mod Total
mod Tests
