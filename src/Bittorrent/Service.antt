-- ===== src/Bittorrent/Service.antt =====
-- The service: src/bittorrent/service.cpp and service.h. What boost and libtorrent decide is a
-- parameter: `boost::iequals`, the path of a file, and how the session takes a torrent.
pub mod MagnetFile
pub mod Loading
pub mod Store
pub mod Alerts
pub mod Reset
pub mod Distinct
pub mod Registry
pub mod Adding
pub mod History
pub mod Lookup
mod Tests
use torrest_cpp.Prelude.{
  ℕ, ◌+◌, Bool, true, false, not, ◌&&◌, Option, none, some, List, [], ◌∷◌, ◌++◌, if◌then◌else◌,
  replicate, Bytes, bytes,
}
use MagnetFile.{encode_magnet}
use torrest_cpp.Prelude.{Result, ok, err, ◌>>=◌, ◌>>◌, throw_if}
use torrest_cpp.Bittorrent.Handle.{Handle, HandleCall, dont_download}
use torrest_cpp.Bittorrent.Exceptions.{
  Exception, invalid_info_hash, duplicate_torrent, load_torrent,
}
use torrest_cpp.Bittorrent.Torrent.{Torrent, Metadata, make_torrent, handle_metadata_received}

-- `mTorrents` and the settings that are read here.
pub record Service : Type 0 where
  pub torrents : List Torrent
  pub download_path : Bytes
  pub torrents_path : Bytes

-- `libtorrent::add_torrent_params`, as far as it is set.
pub record Params : Type 0 where
  pub save_path : Bytes
  pub sequential_download : Bool
  pub file_priorities : List ℕ

-- The session's answer to `add_torrent`: the handle, the name in its status, and what the torrent's
-- metadata says if it has any.
pub record Added : Type 0 where
  pub handle : Handle
  pub name : Bytes
  pub metadata : Option Metadata

-- What is done to files and to the session.
pub data ServiceCall : Type 0 where
  remove_file : Bytes → ServiceCall
  remove_from_session : Bytes → Bool → ServiceCall
  write_file copy_file : Bytes → Bytes → ServiceCall

abbrev pub max_files_per_torrent : ℕ
max_files_per_torrent = 1000

abbrev pub or_invalid_info_hash : Option Torrent → Result Exception Torrent
or_invalid_info_hash none = err invalid_info_hash
or_invalid_info_hash (some t) = ok t

abbrev pub has_value : {A : Type 0} → Option A → Bool
has_value none = false
has_value (some a) = true

-- What `add_torrent_with_params` sets for a torrent that does not come from resume data, and for
-- one that is not to be downloaded.
pub set_params : Bool → Bool → Service → Params → Params
set_params is_resume_data download s p =
    let q : Params =
      if is_resume_data
      then p
      else record p { save_path = s.download_path; sequential_download = true } in
    if download then q else record q {
      file_priorities = q.file_priorities ++ replicate max_files_per_torrent dont_download;
    }

-- `if (ti != nullptr && ti->is_valid()) torrent->handle_metadata_received();`
unfoldable pub receive :
    Handle → Option Metadata → Torrent → Result Exception (Torrent × List HandleCall)
receive h none t = ok (t, [])
receive h (some m) t = handle_metadata_received h m t

-- The torrent of the session's answer.
unfoldable pub load : Bytes → Result Bytes Added → Result Exception (Torrent × List HandleCall)
unfolding receive
load info_hash (err message) = err (load_torrent message)
load info_hash (ok a) = receive a.handle a.metadata (make_torrent a.handle info_hash a.name)

module _ (iequals : Bytes → Bytes → Bool) where
  unfoldable pub find_torrent : Bytes → List Torrent → Option Torrent
  find_torrent h [] = none
  find_torrent h (t ∷ ts) = if iequals t.info_hash h then some t else find_torrent h ts

  unfoldable pub must_find_torrent : Bytes → Service → Result Exception Torrent
  must_find_torrent h s = or_invalid_info_hash (find_torrent h s.torrents)

  unfoldable pub has_torrent : Bytes → Service → Bool
  has_torrent h s = has_value (find_torrent h s.torrents)

  -- `mTorrents.erase(it)`, where `it` is the first torrent that is found.
  pub erase : Bytes → List Torrent → List Torrent
  erase h [] = []
  erase h (t ∷ ts) = let rest = erase h ts in if iequals t.info_hash h then ts else t ∷ rest

  unfoldable pub add_torrent_with_params :
      (Params → Result Bytes Added)
      → Params
      → Bytes
      → Bool
      → Bool
      → Service
      → Result Exception (Service × List HandleCall)
  add_torrent_with_params session p info_hash is_resume_data download s = do
    throw_if (has_torrent info_hash s) (duplicate_torrent info_hash)
    (t, cs) ← load info_hash (session (set_params is_resume_data download s p))
    ok (record s { torrents = s.torrents ++ t ∷ [] }, cs)

-- The files of a torrent; `join` is `utils::join_path`.
module _ (join : Bytes → Bytes → Bytes) where
  abbrev pub get_parts_file : Bytes → Service → Bytes
  get_parts_file h s = join s.download_path (bytes "." ++ (h ++ bytes ".parts"))

  abbrev pub get_fast_resume_file : Bytes → Service → Bytes
  get_fast_resume_file h s = join s.torrents_path (h ++ bytes ".fastresume")

  abbrev pub get_torrent_file : Bytes → Service → Bytes
  get_torrent_file h s = join s.torrents_path (h ++ bytes ".torrent")

  abbrev pub get_magnet_file : Bytes → Service → Bytes
  get_magnet_file h s = join s.torrents_path (h ++ bytes ".magnet")

abbrev pub removal_calls :
    (Bytes → Bytes → Bytes) → Bytes → Bool → Torrent → Service → List ServiceCall
removal_calls join h remove_files t s =
    remove_file (get_parts_file join h s)
    ∷ remove_file (get_fast_resume_file join h s)
    ∷ remove_file (get_torrent_file join h s)
    ∷ remove_file (get_magnet_file join h s)
    ∷ remove_from_session t.info_hash remove_files
    ∷ []

-- `remove_torrent`: the service, the torrent as its readers see it from then on, and the calls.
pub remove_torrent :
    (Bytes → Bytes → Bool)
    → (Bytes → Bytes → Bytes)
    → Bytes
    → Bool
    → Service
    → Result Exception (Service × Torrent × List ServiceCall)
unfolding must_find_torrent
remove_torrent iequals join h remove_files s = do
  t ← must_find_torrent iequals h s
  ok (
    record s { torrents = erase iequals h s.torrents },
    record t { is_closed = true },
    removal_calls join h remove_files t s,
  )

-- What libtorrent reads from a magnet link, a torrent or resume data.
pub record Parsed : Type 0 where
  pub params : Params
  pub info_hash : Bytes

-- `if (errorCode.failed()) throw LoadTorrentException(errorCode.message());`
abbrev pub or_load_torrent : {A : Type 0} → Result Bytes A → Result Exception A
or_load_torrent (err message) = err (load_torrent message)
or_load_torrent (ok a) = ok a

-- The service, the info hash that is returned, and the calls to the handle and to the files.
abbrev pub Addition : Type 0
Addition = Result Exception (Service × Bytes × List HandleCall × List ServiceCall)

module _ (iequals : Bytes → Bytes → Bool) (join : Bytes → Bytes → Bytes)
    (session : Params → Result Bytes Added) where
  -- `add_magnet` with three arguments; `parse` is `libtorrent::parse_magnet_uri`.
  pub add_magnet : (Bytes → Result Bytes Parsed) → Bytes → Bool → Bool → Service → Addition
  add_magnet parse magnet download save_magnet s = do
    p ← or_load_torrent (parse magnet)
    (s2, cs) ← add_torrent_with_params iequals session p.params p.info_hash false download s
    let file : ServiceCall =
        write_file (get_magnet_file join p.info_hash s)
          (encode_magnet (record { magnet = magnet; download = download }))
    ok (s2, p.info_hash, cs, if save_magnet then file ∷ [] else [])

  -- `parse` is the constructor of `libtorrent::torrent_info`.
  pub add_torrent_data : (Bytes → Result Bytes Parsed) → Bytes → Bool → Service → Addition
  add_torrent_data parse contents download s = do
    p ← or_load_torrent (parse contents)
    (s2, cs) ← add_torrent_with_params iequals session p.params p.info_hash false download s
    ok (s2, p.info_hash, cs, write_file (get_torrent_file join p.info_hash s) contents ∷ [])

  -- `add_torrent_file` with three arguments; `equivalent` is `boost::filesystem::equivalent`.
  pub add_torrent_file :
      (Bytes → Result Bytes Parsed)
      → (Bytes → Bytes → Bool)
      → Bytes
      → Bool
      → Bool
      → Service
      → Addition
  add_torrent_file parse equivalent file download save_file s = do
    p ← or_load_torrent (parse file)
    (s2, cs) ← add_torrent_with_params iequals session p.params p.info_hash false download s
    let dest : Bytes = get_torrent_file join p.info_hash s
    ok (
      s2,
      p.info_hash,
      cs,
      if save_file && not (equivalent file dest) then copy_file file dest ∷ [] else [],
    )

  -- `read` gives what `libtorrent::read_resume_data` finds in the file.
  pub add_torrent_with_resume_data : (Bytes → Result Bytes Parsed) → Bytes → Service → Addition
  add_torrent_with_resume_data read file s = do
    p ← or_load_torrent (read file)
    (s2, cs) ← add_torrent_with_params iequals session p.params p.info_hash true true s
    ok (s2, p.info_hash, cs, [])
