-- ===== src/Wire.antt =====
-- The native wire format of values: native_codec_wire.go, native_codec_kv_wire.go and
-- native_codec_decode.go.
pub mod Value
pub mod Keys
pub mod Encode
pub mod Decode
pub mod Encoding
pub mod Writers
pub mod Containers
pub mod EncodeLaws
pub mod Reading
pub mod Normal
pub mod ReadLoops
pub mod RoundTrip
pub mod Payloads
pub mod Examples
