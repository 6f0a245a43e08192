-- ===== src/Bittorrent/Service/Tests.antt =====
-- A service with two torrents, and the theorems about it at concrete inputs.
use torrest_cpp.Prelude.{
  ℕ, ◌+◌, ◌≡◌, refl, sym, ◌∙◌, Bool, true, false, ◌&&◌, none, some, List, [], ◌∷◌, ◌++◌, map, arith,
  leb, if◌then◌else◌, Bytes, bytes, bytes_eq, bytes_eq_iff,
}
use torrest_cpp.Prelude.{Result, ok, err}
use torrest_cpp.Bittorrent.Handle.{Handle, downloading}
use torrest_cpp.Bittorrent.Exceptions.{duplicate_torrent}
use torrest_cpp.Bittorrent.Torrent.{Torrent, make_torrent}
use torrest_cpp.Bittorrent.Service.{
  Service, Params, Added, Parsed, find_torrent, has_torrent, set_params, load, receive,
  add_torrent_with_params, remove_torrent, add_magnet, add_torrent_data, add_torrent_file,
  add_torrent_with_resume_data,
}
use torrest_cpp.Bittorrent.Service.Adding.{added_again}
use torrest_cpp.Bittorrent.Service.Lookup.{IsEquivalence, Unique}
use torrest_cpp.Bittorrent.Service.MagnetFile.{
  Magnet, encode_magnet, decode_magnet, decode_magnet-encode_magnet,
}
use torrest_cpp.Bittorrent.Service.History.{Reachable, started, stepped, adds, Reachable-Unique}
use torrest_cpp.Bittorrent.Service.Registry.{
  Adds, Removes, add_torrent_with_params-Adds, remove_torrent-Removes,
}

abbrev lower : ℕ → ℕ
lower c = if leb b'A' c && leb c b'Z' then c + 32 else c

abbrev iequals : Bytes → Bytes → Bool
iequals a b = bytes_eq (map lower a) (map lower b)

iequals-IsEquivalence : IsEquivalence iequals
iequals-IsEquivalence = record {
  same = λ a. (bytes_eq_iff (map lower a) (map lower a)).1 refl;
  flip = λ a b ab.
      (bytes_eq_iff (map lower b) (map lower a)).1
        (sym ((bytes_eq_iff (map lower a) (map lower b)).0 ab));
  chain = λ a b c ab bc. (bytes_eq_iff (map lower a) (map lower c)).1 (
      (bytes_eq_iff (map lower a) (map lower b)).0 ab
      ∙ (bytes_eq_iff (map lower b) (map lower c)).0 bc);
}

abbrev join : Bytes → Bytes → Bytes
join a b = a ++ (bytes "/" ++ b)

abbrev handle : Handle
handle = record {
  have_piece = λ p. false;
  piece_size = λ p. 4;
  piece_priority = λ p. 4;
  file_progress = [];
  download_queue = [];
  flag_paused = true;
  flag_auto_managed = false;
  state = downloading;
}

abbrev params : Params
params = record { save_path = []; sequential_download = false; file_priorities = [] }

abbrev session : Params → Result Bytes Added
session p = ok (record { handle = handle; name = bytes "film"; metadata = none })

abbrev torrent : Bytes → Torrent
torrent h = record {
  info_hash = h;
  default_name = bytes "film";
  files = [];
  pieces = [];
  is_paused = true;
  has_metadata = false;
  is_closed = false;
}

abbrev with_torrents : List Torrent → Service
with_torrents ts = record { torrents = ts; download_path = bytes "d"; torrents_path = bytes "t" }

abbrev two : Service
two = with_torrents (torrent (bytes "aB") ∷ torrent (bytes "cd") ∷ [])

add_runs :
    add_torrent_with_params iequals session params
      (bytes "cd")
      false
      true
      (with_torrents (torrent (bytes "aB") ∷ []))
    ≡ ok (two, [])
unfolding add_torrent_with_params load receive make_torrent has_torrent find_torrent
add_runs = refl

add_first_runs :
    add_torrent_with_params iequals session params (bytes "aB") false true (with_torrents [])
    ≡ ok (with_torrents (torrent (bytes "aB") ∷ []), [])
unfolding add_torrent_with_params load receive make_torrent has_torrent find_torrent
add_first_runs = refl

two-Unique : Unique iequals two.torrents
two-Unique = unfold find_torrent in (refl, (refl, tt))

add_torrent_with_params-Adds_example :
    Adds iequals
      (bytes "Ab")
      (session (set_params false true two params))
      two
      (add_torrent_with_params iequals session params (bytes "Ab") false true two)
add_torrent_with_params-Adds_example =
    add_torrent_with_params-Adds iequals session params (bytes "Ab") false true two

remove_torrent-Removes_example :
    Removes iequals (bytes "AB") two (remove_torrent iequals join (bytes "AB") true two)
remove_torrent-Removes_example =
    remove_torrent-Removes iequals join (bytes "AB") true two iequals-IsEquivalence two-Unique

two-Reachable : Reachable iequals two
two-Reachable =
    stepped
      (stepped (started (bytes "d") (bytes "t"))
        (adds session params (bytes "aB") false true add_first_runs))
      (adds session params (bytes "cd") false true add_runs)

Reachable-Unique_example : Unique iequals two.torrents
Reachable-Unique_example = Reachable-Unique iequals iequals-IsEquivalence two-Reachable

abbrev parse : Bytes → Result Bytes Parsed
parse s = ok (record { params = params; info_hash = s })

added_again_example :
    (add_magnet iequals join session parse (bytes "CD") true true two
      ≡ err (duplicate_torrent (bytes "CD")))
    × (add_torrent_data iequals join session parse (bytes "CD") true two
        ≡ err (duplicate_torrent (bytes "CD")))
    × (add_torrent_file iequals join session parse bytes_eq (bytes "CD") true true two
        ≡ err (duplicate_torrent (bytes "CD")))
    × (add_torrent_with_resume_data iequals join session parse (bytes "CD") two
        ≡ err (duplicate_torrent (bytes "CD")))
added_again_example =
    added_again iequals join session params (bytes "cd") false true
      (with_torrents (torrent (bytes "aB") ∷ [])) parse bytes_eq (bytes "CD")
      (record { params = params; info_hash = bytes "CD" }) true true iequals-IsEquivalence add_runs
      refl refl

abbrev magnet : Magnet
magnet = record { magnet = bytes "magnet:?xt=urn:btih:ab"; download = true }

decode_magnet-encode_magnet_example : decode_magnet (encode_magnet magnet) ≡ some magnet
decode_magnet-encode_magnet_example = decode_magnet-encode_magnet magnet (omega arith)
