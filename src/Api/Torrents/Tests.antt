-- ===== src/Api/Torrents/Tests.antt =====
-- A torrent with two files, of which one is chosen by its folder.
use torrest_cpp.Prelude.{ℕ, true, false, [], ◌∷◌, Bytes, bytes, bytes_eq}
use torrest_cpp.Bittorrent.Handle.{Handle, downloading}
use torrest_cpp.Bittorrent.File.{File}
use torrest_cpp.Bittorrent.Service.{Service}
use torrest_cpp.Api.Torrents.{set_priority}
use torrest_cpp.Api.Torrents.Selection.{Selects, set_priority-Selects}

abbrev handle : Handle
handle = record {
  have_piece = λ p. true;
  piece_size = λ p. 4;
  piece_priority = λ p. 4;
  file_progress = 5 ∷ 3 ∷ [];
  download_queue = [];
  flag_paused = false;
  flag_auto_managed = true;
  state = downloading;
}

abbrev file : ℕ → Bytes → File
file i path = record {
  index = i;
  offset = 0;
  size = 5;
  path = path;
  name = path;
  piece_length = 4;
  priority = 0;
  is_buffering = false;
  buffer_pieces = [];
  buffer_size = 0;
}

abbrev service : Service
service = record {
  torrents =
      record {
        info_hash = bytes "ab";
        default_name = bytes "ab";
        files = file 0 (bytes "c/a") ∷ file 1 (bytes "d/b") ∷ [];
        pieces = [];
        is_paused = false;
        has_metadata = true;
        is_closed = false;
      }
      ∷ [];
  download_path = [];
  torrents_path = [];
}

set_priority-Selects_example :
    Selects bytes_eq (bytes "ab") 4 (bytes "d/") (bytes "Download started") service (
      set_priority bytes_eq
        (λ t. handle)
        4
        (bytes "ab")
        (bytes "d/")
        (bytes "Download started")
        service)
set_priority-Selects_example =
    set_priority-Selects bytes_eq (bytes "ab") 4 (bytes "d/") (bytes "Download started") service
      (λ t. handle)
