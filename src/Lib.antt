-- ===== src/Lib.antt =====
-- torrest-cpp: a service that streams torrents. It stands on libtorrent: a service holds the torrents,
-- a torrent its files and a cache of the pieces that were read, and a reader gives the bytes of a
-- file to an HTTP client, waiting for the pieces that are not there yet.
--
-- The parts and the files that model them:
--  - Prelude: numbers, lists, byte strings and fallible results that all files share. It models no
--    code.
--  - Text: src/utils/utils.cpp and utils.h, and the loop by which the service splits lists of
--    interfaces.
--  - Settings: the validation of src/settings/settings.cpp, with src/utils/validation.h.
--  - Mime: src/utils/mime.cpp, the table of MIME types in the order of the source.
--  - Bittorrent.Handle: what the code uses of libtorrent's `torrent_handle`. The queries are a
--    snapshot, a record of functions and lists, that every operation is given; the calls that change
--    the handle are returned in order.
--  - Bittorrent.Exceptions, Bittorrent.State: src/bittorrent/exceptions.h, enums.h, and
--    `get_torrent_state`.
--  - Bittorrent.Pieces: the cache `mPieces` of src/bittorrent/torrent.cpp, a list of entries by
--    piece. A wait on `mPiecesCv` is a list of wakes, each with what the other threads did before it.
--  - Bittorrent.Wait: `wait_for_piece`, where each round of the loop is a poll of the torrent.
--  - Bittorrent.Missing: `get_bytes_missing`, against the download queue.
--  - Bittorrent.File: src/bittorrent/file.cpp. The weak pointer to the torrent is an option;
--    Bittorrent.File.Status is what a file reports, with a percentage kept as its formula.
--  - Bittorrent.Torrent: the other operations of src/bittorrent/torrent.cpp.
--  - Bittorrent.Service: the torrents of src/bittorrent/service.cpp, and what adding and removing them
--    does to files and to the session; Bittorrent.Service.MagnetFile the file of a magnet link. What
--    boost and libtorrent decide is a parameter: `boost::iequals`, of which theorems assume that it is
--    an equivalence, the joining of paths, what is parsed from a link or a file, and the session's
--    answer to a torrent. Below it, Loading is `load_torrent_files` over the entries of two
--    directories, Alerts the handlers of the session's alerts and the cleanup of pieces, Reset what
--    `reconfigure` does to the torrents, and Store a torrent that the service holds changed.
--    Bittorrent.Service.History is the runs of all these steps.
--  - Bittorrent.Rates: the session's rate limits under `set_buffering_rate_limits`, `reconfigure` and
--    `configure`.
--  - Bittorrent.Interfaces: the listen interfaces that `configure` makes of its setting and of the
--    machine's addresses, which are a parameter.
--  - Bittorrent.Seeding: the seeding limits and `update_progress`.
--  - Bittorrent.Reader: src/bittorrent/reader.cpp, in a monad of the cache, the calls and the
--    position, over an environment that holds the polls and the wakes of each piece.
--  - Api.Errors: src/api/error_handler.cpp, the status and the message of an exception.
--  - Api.Body: the reads of a part of an answer, src/api/mime/multipart.cpp, each in an environment of
--    its own; Api.Multipart is the parts of an answer.
--  - Api.Serve: src/api/controller/serve.h. What oatpp and range_parser provide is a record of
--    functions.
--  - Api.Items, Api.Torrents, Api.Files, Api.Additions: src/api/controller/torrents.h, files.h and
--    service.h. An answer is its status and its message or its data. `boost::filesystem::path` is a
--    record of functions on the texts of paths.
--
-- The API finds a torrent in the service by its info hash and calls the operations of Torrent, File and
-- Reader on it; the service holds the torrent as it is behind the call.
--
-- Functions keep the names of the source without the class. Where a C++ exception leaves a function
-- the model returns `err`, or `raised` in the reader's monad. Sizes, offsets and indexes that the
-- source keeps in signed 64-bit integers and that are never negative are numbers without a bound;
-- arguments that can be negative are integers. The casts of the reader to 32 bits are written out.
-- Locks are not modelled: an operation is one step, and the waits of the cache and of a piece, where
-- others run in between, are sequences of steps.
--
-- The buffering of a file counts the bytes that libtorrent's download queue reports. What theorems
-- assume of it is `IsConsistent` in Bittorrent.Missing.Laws: a piece that is there is not in the queue,
-- and of a piece no more bytes are reported than it holds. A piece whose bytes have all come and which
-- has not been checked yet counts as no longer missing, as in the code.
--
-- There is no fuel: loops are recursions on lists or on the rounds that are left. A wait whose list of
-- events ends is still `waiting`, `polling` or `blocked`; with a time limit it ends once an event is
-- past it.
--
-- Not modelled: the logs, floating-point progress, the read-ahead's rounding (its result in pieces
-- is an argument), the build with TORREST_LEGACY_READ_PIECE, the service's threads, which run the
-- steps that are modelled until they are stopped, the settings that configure only passes on to
-- libtorrent, the conversion of settings to JSON, the listing of torrents and what a torrent
-- reports, which copy fields, the wiring of oatpp, the command line and the network interfaces,
-- which are calls of libraries and of the system. The memory is taken to suffice, and
-- `boost::filesystem` not to throw where files are removed and copied.
pub mod Prelude
pub mod Api
pub mod Bittorrent
pub mod Mime
pub mod Settings
pub mod Text
