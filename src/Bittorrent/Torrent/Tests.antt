-- ===== src/Bittorrent/Torrent/Tests.antt =====
-- A small torrent, and the theorems about torrents at concrete inputs.
use torrest_cpp.Prelude.{
  ℕ, ◌≡◌, refl, ◌≢◌, ◌↔◌, Bool, true, false, List, [], ◌∷◌, arith, ◌==◌, bytes,
}
use torrest_cpp.Prelude.Int.{pos}
use torrest_cpp.Prelude.{ok}
use torrest_cpp.Bittorrent.Handle.{Handle, downloading}
use torrest_cpp.Bittorrent.State.{paused}
use torrest_cpp.Bittorrent.Missing.Laws.{IsConsistent}
use torrest_cpp.Bittorrent.File.{File}
use torrest_cpp.Bittorrent.Torrent.{
  Torrent, Metadata, make_torrent, pause_torrent, resume, get_state, get_file,
  verify_buffering_state,
}
use torrest_cpp.Bittorrent.Torrent.Files.{
  Finds, Waits, get_file-Finds, AllVerified, verify_buffering_state_lem,
}
use torrest_cpp.Bittorrent.Torrent.Reports.{Reports, get_state-Reports}
use torrest_cpp.Bittorrent.Torrent.Lifecycle.{Agrees, with_flags, flags_after, lifecycle}

abbrev handle : Handle
handle = record {
  have_piece = λ p. p == 0;
  piece_size = λ p. 4;
  piece_priority = λ p. 4;
  file_progress = 6 ∷ 0 ∷ [];
  download_queue = [];
  flag_paused = true;
  flag_auto_managed = true;
  state = downloading;
}

abbrev file : ℕ → Bool → File
file i is_buffering = record {
  index = i;
  offset = 2;
  size = 30;
  path = bytes "a";
  name = bytes "a";
  piece_length = 4;
  priority = 4;
  is_buffering = is_buffering;
  buffer_pieces = 0 ∷ 2 ∷ [];
  buffer_size = 8;
}

abbrev torrent : Torrent
torrent = record {
  info_hash = bytes "ab";
  default_name = bytes "ab";
  files = file 0 true ∷ file 1 false ∷ [];
  pieces = [];
  is_paused = false;
  has_metadata = true;
  is_closed = false;
}

abbrev metadata : Metadata
metadata = record {
  piece_length = 4;
  entries =
      (0, record { offset = 0; size = 3; path = bytes "t/a"; name = bytes "a" })
      ∷ (4, record { offset = 3; size = 9; path = bytes "t/b"; name = bytes "b" })
      ∷ [];
}

handle-IsConsistent : IsConsistent handle
handle-IsConsistent = record {
  had = λ p e. refl;
  within = λ p. omega arith;
  holds_some = λ p. omega arith;
}

lifecycle_example :
    Agrees handle (make_torrent handle (bytes "ab") (bytes ""))
    × Agrees
        (with_flags handle (flags_after (pause_torrent torrent).1 (true, true)))
        (pause_torrent torrent).0
    × Agrees (with_flags handle (flags_after (resume torrent).1 (true, true))) (resume torrent).0
    × (get_state false handle (pause_torrent torrent).0 ≡ paused)
    × (get_state false handle (resume torrent).0 ≢ paused)
lifecycle_example = lifecycle handle torrent (bytes "ab") (bytes "") false

get_state-Reports_example : Reports true handle torrent (get_state true handle torrent)
get_state-Reports_example = get_state-Reports true handle torrent

get_file-Finds_example : Finds torrent (pos 1) (get_file (pos 1) torrent)
get_file-Finds_example = get_file-Finds (pos 1) torrent

verify_buffering_state_lem_example :
    (gs : List File) × (b : Bool) × (verify_buffering_state handle torrent
      ≡ ok (record torrent { files = gs }, b))
    × ((b ≡ true) ↔ Waits handle torrent.files)
    × AllVerified handle torrent.files gs
verify_buffering_state_lem_example = verify_buffering_state_lem handle torrent handle-IsConsistent
