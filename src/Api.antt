-- ===== src/Api.antt =====
-- The HTTP side: src/api.
pub mod Body
pub mod Multipart
pub mod Items
pub mod Errors
pub mod Serve
pub mod Files
pub mod Additions
pub mod Torrents
