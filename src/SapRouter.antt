-- ===== src/SapRouter.antt =====
-- src/transport/saprouter-route.ts: SAProuter routes, the NI_ROUTE request and its answer.
-- A text is the list of its code units.
pub mod Route
pub mod Request
pub mod Response
pub mod Safety
pub mod Parse
pub mod Reply
pub mod Prefix
pub mod Complete
mod Tests
