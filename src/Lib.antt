-- ===== src/Lib.antt =====
-- A model of the wire and value code of open-rfc, an SDK-free TypeScript client for SAP classic RFC.
--
-- open-rfc's client (src/client, src/compat) drives a pool of connections (src/pool) over transports
-- (src/transport) that carry NI frames (src/protocol/ni.ts); the payloads are protocol records and
-- value containers that src/protocol and src/values encode and decode. This library models the pool,
-- and of the other parts the layer that touches untrusted bytes.
--
-- Which file models what:
--   Common, Common/*    shared names; list, number and result lemmas. Common/Numbers models the
--                       JavaScript numbers as far as the code tests them (Number.isSafeInteger).
--   Bytes, Bytes/*      src/protocol/bytes.ts: CheckedByteReader and CheckedByteWriter.
--   Ni, Ni/*            src/protocol/ni.ts: encodeNiFrame and the class NiFrameDecoder.
--   Lz4, Lz4/*          src/protocol/lz4-block.ts: decodeLz4Block and encodeLz4Block.
--   Rfcpro, Rfcpro/*    src/protocol/rfcpro.ts: the header of a field, written with the byte writer.
--   UnicodeScalar, ...  src/values/unicode-scalar.ts: texts of UTF-16 code units, and XML references.
--   SapRouter, ...      src/transport/saprouter-route.ts: Route admits a route string, Request writes
--                       the NI_ROUTE payload of an admitted route, Response reads the answer, and
--                       Prefix completes a prefix with the endpoint of a gateway.
--   Int8, Int8/*        src/values/classic-int8.ts: the three representations of a 64-bit integer.
--   Pool, Pool/*        src/pool/connection-pool-runtime.ts: ConnectionPoolRuntime as a state machine.
--                       Table, Waiters, Resources, Creations, Leases, Acquire, Dispatch and Shutdown
--                       are the methods, Steps the events and the reachable states.
--   Scramble, ...       src/protocol/password-scramble.ts: scrambleRfcPassword.
--
-- How the pool is read: what runs between two awaits is one step on the state. A call of a user, an
-- answer of the factory, a callback of the scheduler and a microtask are events, in any order; a Promise
-- that is settled is an event that names the connection, the creation or the waiter it belongs to. A
-- reading of the clock is part of the event, and a call reads one time.
--
-- How the code is read: a Buffer is the list of its bytes, and a string the list of its UTF-16
-- code units. A method returns the new state with its result; what throws returns a result with the
-- error's class or code, and the messages are left out. A Buffer access of the LZ4 encoder that Node.js
-- would refuse is an error of its own, out_of_range; Lz4/Unchecked is the encoder without these checks,
-- and Lz4/Checks compares the two.
-- Loops that are not structural take fuel. The NI decoder's push loop has the bytes that are buffered
-- and one more, since a frame takes four; #consume has the chunks and two more, since every round but
-- the last two leaves a chunk behind. The LZ4 decoder has the bytes of the block and one more, since a
-- sequence takes one; the encoder the bytes of the source and one more, since a round moves on.
--
-- The rounds of the pool's #dispatch up to an await have the waiters and one more, since a round that
-- goes on without an await has taken a waiter off the queue; what the code does behind an
-- await is the event that resumes it. The loop of #trimIdleHigh has the idle connections, since a round takes one off.
--
-- The limits of the formats (2048 bytes and 255 hops of a route, 32 digits of a reference, 40
-- characters of a password) are the source's.
--
-- Not modelled: sockets, diagnostics; of the pool the rearming of the deadlines of a lifecycle and of a
-- shutdown, the checks of its option objects, calls back into the pool from within the scheduler or
-- the factory, and a scheduler that refuses to schedule; the wiping of private buffers, which nothing
-- reads afterwards; the defence against objects with overridden accessors.
pub mod Common
pub mod Bytes
pub mod Ni
pub mod Lz4
pub mod Rfcpro
pub mod UnicodeScalar
pub mod SapRouter
pub mod Scramble
pub mod Int8
pub mod Pool
