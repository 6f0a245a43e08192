-- ===== src/Api/Serve/Tests.antt =====
-- A service with one torrent, and the theorem about serving at a concrete request.
use torrest_cpp.Prelude.{ℕ, true, false, some, [], ◌∷◌, if◌then◌else◌, Bytes, bytes, bytes_eq}
use torrest_cpp.Prelude.Int.{pos}
use torrest_cpp.Prelude.{Result, ok, err}
use torrest_cpp.Bittorrent.Handle.{Handle, downloading}
use torrest_cpp.Bittorrent.Service.{Service}
use torrest_cpp.Bittorrent.Torrent.{Torrent}
use torrest_cpp.Api.Errors.{ApiException, range}
use torrest_cpp.Api.Serve.{HttpRange, Library, serve}
use torrest_cpp.Api.Serve.Outcomes.{Serves, serve-Serves}

abbrev handle : Handle
handle = record {
  have_piece = λ p. true;
  piece_size = λ p. 4;
  piece_priority = λ p. 4;
  file_progress = 8 ∷ [];
  download_queue = [];
  flag_paused = false;
  flag_auto_managed = true;
  state = downloading;
}

abbrev torrent : Torrent
torrent = record {
  info_hash = bytes "ab";
  default_name = bytes "ab";
  files =
      record {
        index = 0;
        offset = 1;
        size = 8;
        path = bytes "a.mp4";
        name = bytes "a.mp4";
        piece_length = 4;
        priority = 4;
        is_buffering = false;
        buffer_pieces = [];
        buffer_size = 0;
      }
      ∷ [];
  pieces = [];
  is_paused = true;
  has_metadata = true;
  is_closed = false;
}

-- A parser that knows one header.
abbrev parse_range : Bytes → ℕ → Result ApiException HttpRange
parse_range header size =
    if bytes_eq header (bytes "bytes=2-6")
    then ok
        (record { unit = bytes "bytes"; ranges = record { start = pos 2; length = pos 5 } ∷ [] })
    else err range

abbrev lib : Library
lib = record {
  iequals = bytes_eq;
  handle_of = λ t. handle;
  extension = λ name. bytes ".mp4";
  unit_bytes = bytes "bytes";
  parse_range = parse_range;
  content_range = λ r size. bytes "bytes 2-6/8";
  read_ahead = λ f. 1;
  timeout = 60;
}

abbrev service : Service
service = record { torrents = torrent ∷ []; download_path = []; torrents_path = [] }

serve-Serves_example :
    Serves lib false service
      (bytes "ab")
      (pos 0)
      (some (bytes "bytes=2-6"))
      (serve lib false service (bytes "ab") (pos 0) (some (bytes "bytes=2-6")))
serve-Serves_example =
    serve-Serves lib false service (bytes "ab") (pos 0) (some (bytes "bytes=2-6"))
