-- ===== src/Api/Files.antt =====
-- src/api/controller/files.h: the operations on one file. `buffer_size` is `Torrest::get_buffer_size`.
pub mod Downloads
mod Tests
use torrest_cpp.Prelude.{◌+◌, ◌*◌, ◌/◌, Bool, some, List, ◌++◌, if◌then◌else◌, set, Bytes, bytes}
use torrest_cpp.Prelude.Int.{ℤ, pos, pos_part, ltb_ℤ}
use torrest_cpp.Prelude.{Result, ok, ◌>>=◌, ◌>>◌}
use torrest_cpp.Bittorrent.Handle.{Handle, HandleCall, default_priority, dont_download}
use torrest_cpp.Bittorrent.Exceptions.{Exception}
use torrest_cpp.Bittorrent.File.{File, buffer, set_priority}
use torrest_cpp.Bittorrent.File.Status.{FileInfo, get_info}
use torrest_cpp.Bittorrent.Service.{Service, must_find_torrent}
use torrest_cpp.Bittorrent.Torrent.{Torrent, get_file}
use torrest_cpp.Api.Errors.{ApiException, of_core}
use torrest_cpp.Bittorrent.Service.Store.{with_torrent}
use torrest_cpp.Api.Torrents.{Change}

-- `std::max(f->get_size() / 200, get_buffer_size())`
pub start_size : ℤ → File → ℤ
start_size buffer_size f =
    if ltb_ℤ (pos (f.size / 200)) buffer_size then buffer_size else pos (f.size / 200)

abbrev pub end_size : ℤ
end_size = pos (10 * 1024 * 1024)

-- The file with its new priority, and told to buffer if that is asked for.
pub start_file : ℤ → Bool → Handle → File → Result Exception (File × List HandleCall)
unfolding start_size
start_file buffer_size is_buffered h f = set_priority (some h) default_priority f >>= (λ (g, cs).
    if is_buffered
    then buffer (some h) (start_size buffer_size g) end_size g >>= (λ (k, ds). ok (k, cs ++ ds))
    else ok (g, cs))

module _ (iequals : Bytes → Bytes → Bool) (handle_of : Torrent → Handle) where
  pub get_file_info : Bytes → ℤ → Service → Result ApiException FileInfo
  get_file_info info_hash index s = do
    t ← of_core (must_find_torrent iequals info_hash s)
    f ← of_core (get_file index t)
    ok (get_info f)

  pub download_file : ℤ → Bytes → ℤ → Bool → Service → Change
  unfolding start_file
  download_file buffer_size info_hash index is_buffered s = do
    t ← of_core (must_find_torrent iequals info_hash s)
    f ← of_core (get_file index t)
    (g, cs) ← of_core (start_file buffer_size is_buffered (handle_of t) f)
    ok (
      (200, bytes "File downloading"),
      with_torrent iequals info_hash (record t { files = set t.files (pos_part index) g }) s,
      cs,
    )

  pub stop_file : Bytes → ℤ → Service → Change
  stop_file info_hash index s = do
    t ← of_core (must_find_torrent iequals info_hash s)
    f ← of_core (get_file index t)
    (g, cs) ← of_core (set_priority (some (handle_of t)) dont_download f)
    ok (
      (200, bytes "Stopped file download"),
      with_torrent iequals info_hash (record t { files = set t.files (pos_part index) g }) s,
      cs,
    )
