-- ===== src/Bittorrent/Torrent/Known.antt =====
-- The files of a torrent by its metadata.
use torrest_cpp.Prelude.{◌≡◌, refl, true, false}
use torrest_cpp.Prelude.{ok, err}
use torrest_cpp.Bittorrent.Exceptions.{no_metadata}
use torrest_cpp.Bittorrent.Torrent.{Torrent, get_files}

pub get_files_known : (t : Torrent) → t.has_metadata ≡ true → get_files t ≡ ok t.files
unfolding get_files
get_files_known t meta = simp meta refl

pub get_files_unknown : (t : Torrent) → t.has_metadata ≡ false → get_files t ≡ err no_metadata
unfolding get_files
get_files_unknown t unknown = simp unknown refl
