-- ===== src/Retry.antt =====
-- When a request is sent again: the disposition of a server's error (native_retry.go) and the loop of
-- `requestWithoutSessionGateWithReplayPolicy` (native_request.go).
pub mod Errors
pub mod Loop
pub mod Safety
pub mod Replays
pub mod Ending
pub mod Examples
