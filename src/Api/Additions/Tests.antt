-- ===== src/Api/Additions/Tests.antt =====
-- A magnet link that is added twice.
use torrest_cpp.Prelude.{
  ◌≡◌, refl, sym, ◌∙◌, true, false, none, some, [], ◌∷◌, ◌++◌, Bytes, bytes, bytes_eq, bytes_eq_iff,
}
use torrest_cpp.Prelude.{Result, ok, err}
use torrest_cpp.Bittorrent.Handle.{Handle, downloading}
use torrest_cpp.Bittorrent.Exceptions.{duplicate_torrent}
use torrest_cpp.Bittorrent.Service.{
  Service, Params, Added, Parsed, add_torrent_with_params, load, receive, has_torrent, find_torrent,
}
use torrest_cpp.Bittorrent.Service.Lookup.{IsEquivalence}
use torrest_cpp.Bittorrent.Torrent.{make_torrent}
use torrest_cpp.Api.Errors.{bittorrent, unescape}
use torrest_cpp.Text.{unescape_string, starts_with}
use torrest_cpp.Api.Additions.{new_torrent, add_magnet_uri, add_torrent}
use torrest_cpp.Api.Additions.Duplicates.{ignored_again}

bytes_eq-IsEquivalence : IsEquivalence bytes_eq
bytes_eq-IsEquivalence = record {
  same = λ a. (bytes_eq_iff a a).1 refl;
  flip = λ a b ab. (bytes_eq_iff b a).1 (sym ((bytes_eq_iff a b).0 ab));
  chain = λ a b c ab bc. (bytes_eq_iff a c).1 ((bytes_eq_iff a b).0 ab ∙ (bytes_eq_iff b c).0 bc);
}

abbrev handle : Handle
handle = record {
  have_piece = λ p. false;
  piece_size = λ p. 4;
  piece_priority = λ p. 4;
  file_progress = [];
  download_queue = [];
  flag_paused = true;
  flag_auto_managed = false;
  state = downloading;
}

abbrev params : Params
params = record { save_path = []; sequential_download = false; file_priorities = [] }

abbrev session : Params → Result Bytes Added
session p = ok (record { handle = handle; name = bytes "film"; metadata = none })

abbrev empty : Service
empty = record { torrents = []; download_path = bytes "d"; torrents_path = bytes "t" }

abbrev one : Service
one = record empty {
  torrents =
      record {
        info_hash = bytes "ab";
        default_name = bytes "film";
        files = [];
        pieces = [];
        is_paused = true;
        has_metadata = false;
        is_closed = false;
      }
      ∷ [];
}

add_runs :
    add_torrent_with_params bytes_eq session params (bytes "ab") false true empty ≡ ok (one, [])
unfolding add_torrent_with_params load receive make_torrent has_torrent find_torrent
add_runs = refl

abbrev parse : Bytes → Result Bytes Parsed
parse s = ok (record { params = params; info_hash = bytes "ab" })

abbrev join : Bytes → Bytes → Bytes
join a b = a ++ (bytes "/" ++ b)

ignored_again_example :
    (add_magnet_uri bytes_eq join session parse (bytes "magnet%3Aab") false true one
      ≡ ok (new_torrent (bytes "ab") one [] []))
    × (add_magnet_uri bytes_eq join session parse (bytes "magnet%3Aab") false false one
        ≡ err (bittorrent (duplicate_torrent (bytes "ab"))))
    × (add_torrent bytes_eq join session parse (some (bytes "magnet:ab")) false true one
        ≡ ok (new_torrent (bytes "ab") one [] []))
    × (add_torrent bytes_eq join session parse (some (bytes "magnet:ab")) false false one
        ≡ err (bittorrent (duplicate_torrent (bytes "ab"))))
unfolding unescape unescape_string starts_with
ignored_again_example =
    ignored_again bytes_eq join session params (bytes "ab") false true empty parse
      (bytes "magnet%3Aab") (bytes "magnet:ab") (record { params = params; info_hash = bytes "ab" })
      false bytes_eq-IsEquivalence add_runs refl refl refl refl
