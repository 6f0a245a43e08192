-- ===== src/Bittorrent/Torrent.antt =====
-- A torrent: src/bittorrent/torrent.cpp and torrent.h, but for its cache of pieces (`Pieces`), the wait
-- for a piece (`Wait`), its state (`State`) and the bytes missing (`Missing`). TORREST_ENABLE_TORRENT_
-- BUFFERING_STATUS is a parameter. The calls to the handle are results.
pub mod Files
pub mod Known
pub mod Lifecycle
pub mod Reports
mod Tests
use torrest_cpp.Prelude.{
  ℕ, ◌+◌, ◌-◌, Bool, true, false, not, ◌&&◌, ◌||◌, Option, none, some, List, [], ◌∷◌, ◌++◌, ltb,
  if◌then◌else◌, get_elem?, Bytes, is_empty,
}
use torrest_cpp.Prelude.Int.{ℤ, pos, negsuc}
use torrest_cpp.Prelude.{Result, ok, err, ◌>>=◌, ◌>>◌, throw_if}
use torrest_cpp.Bittorrent.Handle.{Handle, HandleCall, unset_auto_managed, set_auto_managed, pause}
use torrest_cpp.Bittorrent.Exceptions.{Exception, no_metadata, invalid_file_index}
use torrest_cpp.Bittorrent.State.{State, get_torrent_state, downloading, buffering}
use torrest_cpp.Bittorrent.File.{File, FileEntry, make_file}
use torrest_cpp.Bittorrent.File
use torrest_cpp.Bittorrent.Pieces.{Pieces}

pub record Torrent : Type 0 where
  pub info_hash : Bytes
  pub default_name : Bytes
  pub files : List File
  pub pieces : Pieces
  pub is_paused : Bool
  pub has_metadata : Bool
  pub is_closed : Bool

-- The constructor: `name` is the name in the handle's status.
unfoldable pub make_torrent : Handle → Bytes → Bytes → Torrent
make_torrent h info_hash name = record {
  info_hash = info_hash;
  default_name = if is_empty name then info_hash else name;
  files = [];
  pieces = [];
  is_paused = h.flag_paused && not h.flag_auto_managed;
  has_metadata = false;
  is_closed = false;
}

-- What `handle_metadata_received` reads: the files of the torrent with their priorities.
pub record Metadata : Type 0 where
  pub piece_length : ℕ
  pub entries : List (ℕ × FileEntry)

-- The loop that makes the files, from the index `i` on.
make_files : Handle → ℕ → ℕ → List (ℕ × FileEntry) → Result Exception (List File × List HandleCall)
make_files h piece_length i [] = ok ([], [])
make_files h piece_length i ((priority, entry) ∷ es) = do
  (f, cs) ← make_file h i piece_length priority entry
  (fs, ds) ← make_files h piece_length (i + 1) es
  ok (f ∷ fs, cs ++ ds)

pub handle_metadata_received :
    Handle → Metadata → Torrent → Result Exception (Torrent × List HandleCall)
unfolding make_files
handle_metadata_received h m t = do
  (fs, cs) ← make_files h m.piece_length 0 m.entries
  ok (record t { files = fs; has_metadata = true }, cs)

-- `Torrent::pause`, which clears `auto_managed` first.
unfoldable pub pause_torrent : Torrent → Torrent × List HandleCall
pause_torrent t = (record t { is_paused = true }, unset_auto_managed ∷ pause ∷ [])

pub resume : Torrent → Torrent × List HandleCall
resume t = (record t { is_paused = false }, set_auto_managed ∷ [])

-- The loop of `set_priority`.
set_priorities : Handle → ℕ → List File → Result Exception (List File × List HandleCall)
set_priorities h priority [] = ok ([], [])
set_priorities h priority (f ∷ fs) = do
  (g, cs) ← File.set_priority (some h) priority f
  (gs, ds) ← set_priorities h priority fs
  ok (g ∷ gs, cs ++ ds)

pub set_priority : Handle → ℕ → Torrent → Result Exception (Torrent × List HandleCall)
unfolding set_priorities
set_priority h priority t = do
  throw_if (not t.has_metadata) no_metadata
  (fs, cs) ← set_priorities h priority t.files
  ok (record t { files = fs }, cs)

pub any_buffering : List File → Bool
any_buffering [] = false
any_buffering (f ∷ fs) = f.is_buffering || any_buffering fs

-- The part of `get_state` under TORREST_ENABLE_TORRENT_BUFFERING_STATUS.
pub report_buffering : Bool → State → State
report_buffering is_any downloading = if is_any then buffering else downloading
report_buffering is_any s = s

-- `get_state`; `buffering_status` is TORREST_ENABLE_TORRENT_BUFFERING_STATUS.
pub get_state : Bool → Handle → Torrent → State
unfolding any_buffering report_buffering
get_state buffering_status h t =
    report_buffering (buffering_status && any_buffering t.files)
      (get_torrent_state t.is_paused t.has_metadata h)

unfoldable pub get_files : Torrent → Result Exception (List File)
get_files t = do throw_if (not t.has_metadata) no_metadata; ok t.files

unfoldable pub or_invalid_index : Option File → Result Exception File
or_invalid_index none = err invalid_file_index
or_invalid_index (some f) = ok f

-- `get_file`: the index is an `int`.
unfoldable pub get_file : ℤ → Torrent → Result Exception File
unfolding or_invalid_index
get_file (pos i) t = do
  throw_if (not t.has_metadata) no_metadata
  or_invalid_index (get_elem? t.files i)
get_file (negsuc n) t = do throw_if (not t.has_metadata) no_metadata; err invalid_file_index

-- `check_available_space`, where the save path has `free` bytes left. `metadata` is
-- `status.has_metadata`, of libtorrent's own status.
unfoldable pub check_available_space : Bool → ℕ → ℕ → ℕ → Torrent → Torrent × List HandleCall
unfolding pause_torrent
check_available_space metadata free total total_done t =
    if metadata && ltb free (total - total_done) then pause_torrent t else (t, [])

-- The loop of `verify_buffering_state`: every file is checked.
verify_files : Handle → List File → Result Exception (List File × Bool)
verify_files h [] = ok ([], false)
verify_files h (f ∷ fs) = do
  (g, b) ← File.verify_buffering_state (some h) f
  (gs, c) ← verify_files h fs
  ok (g ∷ gs, b || c)

pub verify_buffering_state : Handle → Torrent → Result Exception (Torrent × Bool)
unfolding verify_files
verify_buffering_state h t = do (fs, b) ← verify_files h t.files; ok (record t { files = fs }, b)
