-- ===== src/Api/Torrents.antt =====
-- The operations of src/api/controller/torrents.h that change a torrent or select its files. An answer
-- with a message is the message and its status.
pub mod Selection
mod Tests
use torrest_cpp.Prelude.{
  ℕ, ◌+◌, ◌⊎◌, inl, inr, Bool, true, false, not, ◌&&◌, ◌||◌, Option, some, List, [], ◌∷◌, ◌++◌,
  if◌then◌else◌, Bytes, bytes, is_empty,
}
use torrest_cpp.Prelude.{Result, ok, ◌>>=◌, ◌>>◌}
use torrest_cpp.Text.{starts_with}
use torrest_cpp.Bittorrent.Handle.{Handle, HandleCall, default_priority, dont_download}
use torrest_cpp.Bittorrent.Exceptions.{Exception}
use torrest_cpp.Bittorrent.File.{File}
use torrest_cpp.Bittorrent.File
use torrest_cpp.Bittorrent.File.Status.{FileInfo, FileStatus, get_info}
use torrest_cpp.Bittorrent.Service.{Service, ServiceCall, must_find_torrent, remove_torrent}
use torrest_cpp.Bittorrent.Torrent.{Torrent, get_files}
use torrest_cpp.Bittorrent.Torrent
use torrest_cpp.Api.Errors.{ApiException, of_core, unescape}
use torrest_cpp.Api.Items.{file_status}
use torrest_cpp.Bittorrent.Service.Store.{with_torrent}

abbrev pub Message : Type 0
Message = ℕ × Bytes

-- The message, the service and the calls to the handle.
abbrev pub Change : Type 0
Change = Result ApiException (Message × Service × List HandleCall)

-- The loop of `set_priority`; the last component is `isDownloading`.
pub set_selected :
    Handle → ℕ → Bytes → List File → Result Exception (List File × List HandleCall × Bool)
set_selected h priority prefix [] = ok ([], [], false)
set_selected h priority prefix (f ∷ fs) =
    let rest = set_selected h priority prefix fs in
    if starts_with f.path prefix
    then File.set_priority (some h) priority f
      >>= (λ (g, cs). rest >>= (λ (gs, ds, _). ok (g ∷ gs, cs ++ ds, true)))
    else rest >>= (λ (gs, ds, is_downloading). ok (f ∷ gs, ds, is_downloading))

-- The loop of `torrentFiles`.
pub select_files :
    Bool
    → Handle
    → Torrent
    → Bytes
    → List File
    → Result Exception (List (FileInfo × Option FileStatus))
select_files status h t prefix [] = ok []
select_files status h t prefix (f ∷ fs) =
    let rest = select_files status h t prefix fs in
    if is_empty prefix || starts_with f.path prefix
    then file_status status h t f >>= (λ s. rest >>= (λ xs. ok ((get_info f, s) ∷ xs)))
    else rest

-- "Invalid prefix provided", or the files.
pub files_answer :
    Bytes → List (FileInfo × Option FileStatus) → Message ⊎ List (FileInfo × Option FileStatus)
files_answer prefix xs =
    if not (is_empty prefix) && is_empty xs
    then inl (404, bytes "Invalid prefix provided")
    else inr xs

module _ (iequals : Bytes → Bytes → Bool) (handle_of : Torrent → Handle) where
  -- `set_priority` for the files with a prefix.
  pub set_prefixed : ℕ → Bytes → Bytes → Bytes → Service → Change
  unfolding set_selected
  set_prefixed priority info_hash prefix message s = do
    t ← of_core (must_find_torrent iequals info_hash s)
    fs ← of_core (get_files t)
    (gs, cs, is_downloading) ← of_core (set_selected (handle_of t) priority prefix fs)
    ok (
      if is_downloading then (200, message) else (404, bytes "Invalid prefix provided"),
      with_torrent iequals info_hash (record t { files = gs }) s,
      cs,
    )

  pub set_whole : ℕ → Bytes → Bytes → Service → Change
  set_whole priority info_hash message s = do
    t ← of_core (must_find_torrent iequals info_hash s)
    (u, cs) ← of_core (Torrent.set_priority (handle_of t) priority t)
    ok ((200, message), with_torrent iequals info_hash u s, cs)

  pub set_priority : ℕ → Bytes → Bytes → Bytes → Service → Change
  unfolding set_prefixed set_whole
  set_priority priority info_hash prefix message s =
      if is_empty prefix
      then set_whole priority info_hash message s
      else set_prefixed priority info_hash prefix message s

  pub torrent_download : Bytes → Bytes → Service → Change
  torrent_download info_hash prefix s = do
    path ← unescape prefix
    set_priority default_priority info_hash path (bytes "Download started") s

  pub torrent_stop_download : Bytes → Bytes → Service → Change
  torrent_stop_download info_hash prefix s = do
    path ← unescape prefix
    set_priority dont_download info_hash path (bytes "Download stopped") s

  pub torrent_files :
      Bytes
      → Bytes
      → Bool
      → Service
      → Result ApiException (Message ⊎ List (FileInfo × Option FileStatus))
  unfolding select_files files_answer
  torrent_files info_hash prefix_escaped status s = do
    t ← of_core (must_find_torrent iequals info_hash s)
    fs ← of_core (get_files t)
    prefix ← unescape prefix_escaped
    xs ← of_core (select_files status (handle_of t) t prefix fs)
    ok (files_answer prefix xs)

  pub resume_torrent : Bytes → Service → Change
  resume_torrent info_hash s = do
    t ← of_core (must_find_torrent iequals info_hash s)
    let (u, cs) = Torrent.resume t
    ok ((200, bytes "Torrent resumed"), with_torrent iequals info_hash u s, cs)

  pub pause_torrent : Bytes → Service → Change
  pause_torrent info_hash s = do
    t ← of_core (must_find_torrent iequals info_hash s)
    let (u, cs) = Torrent.pause_torrent t
    ok ((200, bytes "Torrent paused"), with_torrent iequals info_hash u s, cs)

-- `removeTorrent`; the calls are to the files and to the session.
pub delete_torrent :
    (Bytes → Bytes → Bool)
    → (Bytes → Bytes → Bytes)
    → Bytes
    → Bool
    → Service
    → Result ApiException (Message × Service × List ServiceCall)
delete_torrent iequals join info_hash delete_files s = do
  (s2, t, cs) ← of_core (remove_torrent iequals join info_hash delete_files s)
  ok ((200, bytes "Torrent removed"), s2, cs)
