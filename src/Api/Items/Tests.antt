-- ===== src/Api/Items/Tests.antt =====
-- A torrent with files in folders, and the items of one of them.
use torrest_cpp.Prelude.{
  ℕ, ◌≡◌, refl, subst, ◌↔◌, true, false, none, some, List, [], ◌∷◌, ◌++◌, if◌then◌else◌, drop,
  Bytes, bytes, is_empty, bytes_eq,
}
use torrest_cpp.Prelude.{ok, ◌>>=◌}
use torrest_cpp.Bittorrent.Handle.{Handle, downloading}
use torrest_cpp.Bittorrent.File.{File}
use torrest_cpp.Bittorrent.Service.{Service, find_torrent}
use torrest_cpp.Bittorrent.Torrent.{Torrent}
use torrest_cpp.Text.{split}
use torrest_cpp.Api.Items.{Paths, Items, list_files, set_progress, torrent_items}
use torrest_cpp.Api.Items.Listing.{rest_of}
use torrest_cpp.Api.Items.Loop.{AllKnown}
use torrest_cpp.Api.Items.Outcomes.{Lists, torrent_items-Lists}

abbrev last : List Bytes → Bytes
last [] = []
last (p ∷ []) = p
last (p ∷ q ∷ ps) = last (q ∷ ps)

abbrev paths : Paths
paths = record {
  components = λ p. if is_empty p then [] else split b'/' p;
  filename = λ p. last (split b'/' p);
  remove_filename = λ p. p;
  slash = λ a b. a ++ (bytes "/" ++ b);
  preferred_separator = bytes "/";
}

abbrev handle : Handle
handle = record {
  have_piece = λ p. true;
  piece_size = λ p. 4;
  piece_priority = λ p. 4;
  file_progress = 5 ∷ 3 ∷ 8 ∷ [];
  download_queue = [];
  flag_paused = false;
  flag_auto_managed = true;
  state = downloading;
}

abbrev file : ℕ → ℕ → ℕ → Bytes → File
file i size priority path = record {
  index = i;
  offset = 0;
  size = size;
  path = path;
  name = path;
  piece_length = 4;
  priority = priority;
  is_buffering = false;
  buffer_pieces = [];
  buffer_size = 0;
}

abbrev torrent : Torrent
torrent = record {
  info_hash = bytes "ab";
  default_name = bytes "ab";
  files = file 0 5 4 (bytes "d/a") ∷ file 1 6 0 (bytes "d/s/b") ∷ file 2 8 4 (bytes "d/s/c") ∷ [];
  pieces = [];
  is_paused = false;
  has_metadata = true;
  is_closed = false;
}

abbrev service : Service
service = record { torrents = torrent ∷ []; download_path = []; torrents_path = [] }

torrent_found : find_torrent bytes_eq (bytes "ab") service.torrents ≡ some torrent
unfolding find_torrent
torrent_found = refl

torrent_items-Lists_example :
    Lists bytes_eq
      (λ t. handle)
      paths
      (bytes "ab")
      (bytes "d")
      true
      service
      (torrent_items bytes_eq (λ t. handle) paths (bytes "ab") (bytes "d") true service)
    × ((prefix : Bytes) (f : File) (r : List Bytes)
        → (rest_of paths prefix f ≡ some r)
          ↔ (paths.components f.path ≡ paths.components prefix ++ r))
torrent_items-Lists_example =
    torrent_items-Lists bytes_eq (λ t. handle) paths (bytes "ab") (bytes "d") true service
      (λ t there status.
        let same : torrent ≡ t = cc (torrent_found, there) in
        subst (λ u. AllKnown handle u.files) same ((5, refl), ((3, refl), ((8, refl), tt))))

abbrev items : Items
items = record {
  folders =
      record { name = bytes "s"; path = bytes "d/s/"; length = 14; file_count = 2; status = none }
      ∷ [];
  files = [];
}

-- The folder of two files, one of which is not to be downloaded.
counts_folder :
    list_files paths false handle torrent
        (bytes "d")
        (drop 1 torrent.files)
        (record { folders = []; files = [] })
      >>= (λ i. ok (set_progress false i))
    ≡ ok items
unfolding list_files set_progress split
counts_folder = refl
