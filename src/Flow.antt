-- ===== src/Flow.antt =====
-- Credits for requests in flight, `nativeFlowController` of native_limits.go.
pub mod Controller
pub mod Invariant
pub mod Grant
pub mod Visit
pub mod Pump
pub mod Acquire
pub mod Admission
pub mod Operations
pub mod Ending
pub mod Close
pub mod Limits
pub mod Examples
