-- ===== src/Request.antt =====
-- Requests in flight on one connection: native_request.go, native_pending.go, native_reader.go and the
-- parts of native.go, native_response.go and native_connection.go that they call.
pub mod Executor
pub mod Identifiers
pub mod Ledger
pub mod Settling
pub mod System
pub mod Invariant
pub mod Closing
pub mod Registering
pub mod Leaving
pub mod Owed
pub mod Interleaving
pub mod Promises
pub mod Credits
pub mod Refinement
pub mod Steps
pub mod Examples
