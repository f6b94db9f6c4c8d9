-- ===== src/Stream.antt =====
-- Stream identifiers of the client's stores.
pub mod Id
pub mod IdLaws
pub mod Examples
