-- ===== src/Bittorrent.antt =====
-- The code of src/bittorrent: torrents, their files, readers over the files, and the service.
pub mod Handle
pub mod Exceptions
pub mod Pieces
pub mod Wait
pub mod State
pub mod Missing
pub mod File
pub mod Torrent
pub mod Reader
pub mod Seeding
pub mod Interfaces
pub mod Rates
pub mod Service
