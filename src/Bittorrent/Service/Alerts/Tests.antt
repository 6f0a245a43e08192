-- ===== src/Bittorrent/Service/Alerts/Tests.antt =====
-- A piece that was read for the only torrent of a service.
use torrest_cpp.Prelude.{true, false, some, [], ◌∷◌, ◌++◌, Bytes, bytes, bytes_eq}
use torrest_cpp.Bittorrent.Handle.{Handle, downloading}
use torrest_cpp.Bittorrent.Service.{Service}
use torrest_cpp.Bittorrent.Service.Alerts.{read_piece, handle_alert}
use torrest_cpp.Bittorrent.Service.Alerts.Effects.{Effect, handle_alert-Effect}

abbrev handle : Handle
handle = record {
  have_piece = λ p. true;
  piece_size = λ p. 4;
  piece_priority = λ p. 4;
  file_progress = [];
  download_queue = [];
  flag_paused = false;
  flag_auto_managed = true;
  state = downloading;
}

abbrev service : Service
service = record {
  torrents =
      record {
        info_hash = bytes "ab";
        default_name = bytes "ab";
        files = [];
        pieces = [];
        is_paused = false;
        has_metadata = true;
        is_closed = false;
      }
      ∷ [];
  download_path = bytes "d";
  torrents_path = bytes "t";
}

abbrev join : Bytes → Bytes → Bytes
join a b = a ++ (bytes "/" ++ b)

handle_alert-Effect_example :
    Effect bytes_eq join
      (λ t. handle)
      true
      service
      (read_piece (bytes "ab") 3 (some (4, bytes "data")) 7)
      (handle_alert bytes_eq join
        (λ t. handle)
        true
        (read_piece (bytes "ab") 3 (some (4, bytes "data")) 7)
        service)
handle_alert-Effect_example =
    handle_alert-Effect bytes_eq join (λ t. handle) true service
      (read_piece (bytes "ab") 3 (some (4, bytes "data")) 7)
