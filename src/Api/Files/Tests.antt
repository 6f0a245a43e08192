-- ===== src/Api/Files/Tests.antt =====
-- A download of the only file of a torrent.
use torrest_cpp.Prelude.{
  ◌<◌, ◌≡◌, refl, ap, subst, ◌∙◌, true, false, some, [], ◌∷◌, arith, bytes, bytes_eq,
}
use torrest_cpp.Prelude.Int.{pos}
use torrest_cpp.Prelude.{ok}
use torrest_cpp.Bittorrent.Handle.{Handle, downloading}
use torrest_cpp.Bittorrent.File.{File}
use torrest_cpp.Bittorrent.Service.{Service, find_torrent}
use torrest_cpp.Bittorrent.Torrent.{Torrent, get_file, or_invalid_index}
use torrest_cpp.Api.Files.{download_file}
use torrest_cpp.Api.Files.Downloads.{Downloads, download_file-Downloads}

abbrev handle : Handle
handle = record {
  have_piece = λ p. false;
  piece_size = λ p. 4;
  piece_priority = λ p. 4;
  file_progress = 0 ∷ [];
  download_queue = [];
  flag_paused = false;
  flag_auto_managed = true;
  state = downloading;
}

abbrev file : File
file = record {
  index = 0;
  offset = 0;
  size = 50;
  path = bytes "a";
  name = bytes "a";
  piece_length = 4;
  priority = 0;
  is_buffering = false;
  buffer_pieces = [];
  buffer_size = 0;
}

abbrev torrent : Torrent
torrent = record {
  info_hash = bytes "ab";
  default_name = bytes "ab";
  files = file ∷ [];
  pieces = [];
  is_paused = false;
  has_metadata = true;
  is_closed = false;
}

abbrev service : Service
service = record { torrents = torrent ∷ []; download_path = []; torrents_path = [] }

torrent_found : find_torrent bytes_eq (bytes "ab") service.torrents ≡ some torrent
unfolding find_torrent
torrent_found = refl

file_found : get_file (pos 0) torrent ≡ ok file
unfolding get_file or_invalid_index
file_found = refl

pieces_are_long :
    (t : Torrent) (f : File)
    → find_torrent bytes_eq (bytes "ab") service.torrents ≡ some t
    → get_file (pos 0) t ≡ ok f
    → 0 < f.piece_length
pieces_are_long t f found there =
    let same : torrent ≡ t = cc (torrent_found, found) in
    let at : get_file (pos 0) torrent ≡ ok f = ap (get_file (pos 0)) same ∙ there in
    let same_file : file ≡ f = cc (file_found, at) in
    subst (λ k. 0 < k.piece_length) same_file (omega arith)

download_file-Downloads_example :
    Downloads bytes_eq
      (λ t. handle)
      (pos 20)
      (bytes "ab")
      (pos 0)
      true
      service
      (download_file bytes_eq (λ t. handle) (pos 20) (bytes "ab") (pos 0) true service)
download_file-Downloads_example =
    download_file-Downloads bytes_eq (λ t. handle) (pos 20) (bytes "ab") (pos 0) true service
      pieces_are_long
