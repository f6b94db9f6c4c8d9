-- ===== src/Frame.antt =====
-- Frames of the native protocol: native_frame.go, the response part of native_response.go and the
-- header that native_connection.go writes.
pub mod Header
pub mod Response
pub mod Assembler
pub mod RoundTrip
pub mod ServerInitiated
pub mod Examples
