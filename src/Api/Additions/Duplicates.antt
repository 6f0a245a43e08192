-- ===== src/Api/Additions/Duplicates.antt =====
-- What is answered to a torrent that was added before.
use torrest_cpp.Prelude.{◌≡◌, refl, Bool, true, false, some, List, [], Bytes, bytes, bytes_eq}
use torrest_cpp.Prelude.{Result, ok, err}
use torrest_cpp.Text.{starts_with}
use torrest_cpp.Bittorrent.Handle.{HandleCall}
use torrest_cpp.Bittorrent.Exceptions.{duplicate_torrent}
use torrest_cpp.Bittorrent.Service.{Service, Params, Added, Parsed, add_torrent_with_params}
use torrest_cpp.Bittorrent.Service.Adding.{added_again}
use torrest_cpp.Bittorrent.Service.Lookup.{IsEquivalence}
use torrest_cpp.Api.Errors.{bittorrent, unescape}
use torrest_cpp.Api.Additions.{new_torrent, handle_duplicate_torrent, add_magnet_uri, add_torrent}

-- Once a torrent was added, the same magnet link or torrent file, up to the case of the info hash, is
-- answered with the info hash and changes nothing if duplicates are ignored, and with the exception of a
-- duplicate if not, whatever the session would answer. The link is escaped text that begins with
-- "magnet:", and `boost::iequals` is an equivalence.
pub ignored_again :
    (iequals : Bytes → Bytes → Bool) (join : Bytes → Bytes → Bytes)
    (session : Params → Result Bytes Added) (p : Params) (h : Bytes)
    (is_resume_data download : Bool) (s : Service) {s2 : Service} {cs : List HandleCall}
    (parse : Bytes → Result Bytes Parsed) (uri source : Bytes) (q : Parsed) (download_again : Bool)
    → IsEquivalence iequals
    → add_torrent_with_params iequals session p h is_resume_data download s ≡ ok (s2, cs)
    → unescape uri ≡ ok source
    → starts_with source (bytes "magnet:") ≡ true
    → parse source ≡ ok q
    → iequals h q.info_hash ≡ true
    → (add_magnet_uri iequals join session parse uri download_again true s2
        ≡ ok (new_torrent q.info_hash s2 [] []))
      × (add_magnet_uri iequals join session parse uri download_again false s2
          ≡ err (bittorrent (duplicate_torrent q.info_hash)))
      × (add_torrent iequals join session parse (some source) download_again true s2
          ≡ ok (new_torrent q.info_hash s2 [] []))
      × (add_torrent iequals join session parse (some source) download_again false s2
          ≡ err (bittorrent (duplicate_torrent q.info_hash)))
unfolding add_magnet_uri add_torrent handle_duplicate_torrent
ignored_again iequals join session p h r d s {s2} {cs} parse uri source q d2 e eq text is_magnet
      read same =
    let again =
      added_again iequals join session p h r d s {s2 = s2} {cs = cs} parse bytes_eq source q d2 true
        e eq read same in
    let (magnet, payload, _, _) = again in
    (
      rw (text, is_magnet, magnet) refl,
      rw (text, is_magnet, magnet) refl,
      rw payload refl,
      rw payload refl,
    )
