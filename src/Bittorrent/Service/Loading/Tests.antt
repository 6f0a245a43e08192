-- ===== src/Bittorrent/Service/Loading/Tests.antt =====
-- A directory with one file of each kind, and the theorem about loading at it.
use torrest_cpp.Prelude.{true, false, none, List, [], ◌∷◌, ◌++◌, Bytes, bytes, bytes_eq}
use torrest_cpp.Prelude.{Result, ok, err}
use torrest_cpp.Bittorrent.Handle.{Handle, downloading}
use torrest_cpp.Bittorrent.Service.{Service, Params, Added, Parsed}
use torrest_cpp.Bittorrent.Service.MagnetFile.{encode_magnet}
use torrest_cpp.Bittorrent.Service.Loading.{Entry, Sources}

abbrev handle : Handle
handle = record {
  have_piece = λ p. false;
  piece_size = λ p. 4;
  piece_priority = λ p. 4;
  file_progress = [];
  download_queue = [];
  flag_paused = false;
  flag_auto_managed = true;
  state = downloading;
}

abbrev session : Params → Result Bytes Added
session p = ok (record { handle = handle; name = bytes "film"; metadata = none })

abbrev read_as : Bytes → Bytes → Result Bytes Parsed
read_as h source = ok (record {
  params = record { save_path = []; sequential_download = false; file_priorities = [] };
  info_hash = h;
})

abbrev sources : Sources
sources = record {
  resume_data = read_as (bytes "ab");
  torrent_info = λ f. err (bytes "bad");
  magnet_uri = read_as (bytes "cd");
  contents = λ f. encode_magnet (record { magnet = bytes "magnet:cd"; download = true });
  equivalent = bytes_eq;
}

abbrev entry : Bytes → Bytes → Entry
entry stem extension = record {
  path = stem ++ extension;
  stem = stem;
  extension = extension;
  is_regular_file = true;
}

abbrev torrents : List Entry
torrents =
    entry (bytes "ab") (bytes ".fastresume")
    ∷ entry (bytes "ef") (bytes ".torrent")
    ∷ entry (bytes "cd") (bytes ".magnet")
    ∷ []

abbrev downloads : List Entry
downloads = entry (bytes ".ab") (bytes ".parts") ∷ entry (bytes ".ef") (bytes ".parts") ∷ []

abbrev join : Bytes → Bytes → Bytes
join a b = a ++ (bytes "/" ++ b)

abbrev empty : Service
empty = record { torrents = []; download_path = bytes "d"; torrents_path = bytes "t" }
