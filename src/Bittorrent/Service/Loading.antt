-- ===== src/Bittorrent/Service/Loading.antt =====
-- `load_torrent_files` of src/bittorrent/service.cpp. What the file system and libtorrent say is a
-- record of parameters; a file's contents are those when it is read, empty for a file that is gone.
pub mod Additions
pub mod Kept
mod Tests
pub mod Directory
pub mod Files
use torrest_cpp.Prelude.{
  ◌+◌, Bool, true, false, ◌&&◌, none, some, List, [], ◌∷◌, ◌++◌, if◌then◌else◌, Bytes, bytes,
  bytes_eq,
}
use torrest_cpp.Prelude.{Result, ok, err, ◌>>=◌, ◌>>◌}
use torrest_cpp.Text.{ltrim}
use torrest_cpp.Bittorrent.Handle.{HandleCall}
use torrest_cpp.Bittorrent.Exceptions.{
  Exception, duplicate_torrent, load_torrent, out_of_range, out_of_bounds,
}
use torrest_cpp.Bittorrent.Service.{
  Service, Params, Added, Parsed, ServiceCall, Addition, remove_file, get_magnet_file, has_torrent,
  add_magnet, add_torrent_file, add_torrent_with_resume_data,
}
use torrest_cpp.Bittorrent.Service.MagnetFile.{decode_magnet}

-- An entry that `directory_iterator` meets.
pub record Entry : Type 0 where
  pub path : Bytes
  pub stem : Bytes
  pub extension : Bytes
  pub is_regular_file : Bool

-- The first three say what libtorrent makes of resume data, of a torrent file and of a magnet link.
pub record Sources : Type 0 where
  pub resume_data : Bytes → Result Bytes Parsed
  pub torrent_info : Bytes → Result Bytes Parsed
  pub magnet_uri : Bytes → Result Bytes Parsed
  pub contents : Bytes → Bytes
  pub equivalent : Bytes → Bytes → Bool

-- The service, and the calls to handles and to files.
abbrev pub Loaded : Type 0
Loaded = Result Exception (Service × List HandleCall × List ServiceCall)

-- `catch (const BittorrentException &e)`
pub is_bittorrent : Exception → Bool
is_bittorrent out_of_range = false
is_bittorrent out_of_bounds = false
is_bittorrent e = true

-- A `try` around an addition, by its `catch` clauses.
pub attempt : (Exception → Result Exception (List ServiceCall)) → Service → Addition → Loaded
attempt handler s (ok (s2, h, cs, ds)) = ok (s2, cs, ds)
attempt handler s (err e) = handler e >>= λ ds. ok (s, [], ds)

-- A loop over files.
pub load_all : (Bytes → Service → Loaded) → List Bytes → Service → Loaded
load_all one [] s = ok (s, [], [])
load_all one (f ∷ fs) s = one f s >>= λ (s2, cs, ds).
    load_all one fs s2 >>= (λ (s3, cs2, ds2). ok (s3, cs ++ cs2, ds ++ ds2))

pub caught_resume : Bytes → Exception → Result Exception (List ServiceCall)
unfolding is_bittorrent
caught_resume f e = if is_bittorrent e then ok (remove_file f ∷ []) else err e

pub caught_torrent : Bytes → Exception → Result Exception (List ServiceCall)
unfolding is_bittorrent
caught_torrent f (load_torrent message) = ok (remove_file f ∷ [])
caught_torrent f (duplicate_torrent h) = ok []
caught_torrent f e = if is_bittorrent e then ok [] else err e

pub caught_magnet :
    (Bytes → Bytes → Bytes) → Service → Bytes → Exception → Result Exception (List ServiceCall)
unfolding is_bittorrent
caught_magnet join s f (duplicate_torrent h) = ok (remove_file (get_magnet_file join h s) ∷ [])
caught_magnet join s f e = if is_bittorrent e then ok (remove_file f ∷ []) else err e

-- The files with an extension.
pub with_extension : Bytes → List Entry → List Bytes
with_extension ext [] = []
with_extension ext (p ∷ ps) =
    let rest = with_extension ext ps in
    if p.is_regular_file && bytes_eq p.extension ext then p.path ∷ rest else rest

-- The info hash of a file of parts.
pub parts_hash : Entry → Bytes
parts_hash p = ltrim p.stem (bytes ".")

module _ (iequals : Bytes → Bytes → Bool) where
  -- The files of parts whose torrent is not there.
  pub stale_parts : Service → List Entry → List ServiceCall
  unfolding parts_hash
  stale_parts s [] = []
  stale_parts s (p ∷ ps) =
      let rest = stale_parts s ps in
      if bytes_eq p.extension (bytes ".parts") && p.is_regular_file
      then if has_torrent iequals (parts_hash p) s then rest else remove_file p.path ∷ rest
      else rest

module _ (iequals : Bytes → Bytes → Bool) (join : Bytes → Bytes → Bytes)
    (session : Params → Result Bytes Added) (src : Sources) where
  pub load_resume_file : Bytes → Service → Loaded
  unfolding attempt caught_resume
  load_resume_file f s =
      attempt (caught_resume f) s
        (add_torrent_with_resume_data iequals join session src.resume_data f s)

  pub load_torrent_file : Bytes → Service → Loaded
  unfolding attempt caught_torrent
  load_torrent_file f s =
      attempt (caught_torrent f) s
        (add_torrent_file iequals join session src.torrent_info src.equivalent f false false s)

  -- A file of which no link can be read is passed over.
  pub load_magnet_file : Bytes → Service → Loaded
  unfolding attempt caught_magnet
  load_magnet_file f s = elim (decode_magnet (src.contents f)) [
    | none ↦ ok (s, [], [])
    | some m ↦
        attempt (caught_magnet join s f) s
          (add_magnet iequals join session src.magnet_uri m.magnet m.download false s)
  ]

  -- `torrents` and `downloads` are the entries of the two directories.
  pub load_torrent_files : List Entry → List Entry → Service → Loaded
  unfolding load_all load_resume_file load_torrent_file load_magnet_file stale_parts with_extension
  load_torrent_files torrents downloads s = do
    (s1, cs1, ds1) ← load_all load_resume_file (with_extension (bytes ".fastresume") torrents) s
    (s2, cs2, ds2) ← load_all load_torrent_file (with_extension (bytes ".torrent") torrents) s1
    (s3, cs3, ds3) ← load_all load_magnet_file (with_extension (bytes ".magnet") torrents) s2
    ok (s3, cs1 ++ (cs2 ++ cs3), ds1 ++ (ds2 ++ (ds3 ++ stale_parts iequals s3 downloads)))
