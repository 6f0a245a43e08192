-- ===== src/Api/Additions.antt =====
-- src/api/controller/service.h: adding torrents. `bad_request` stands for the 400 that
-- OATPP_ASSERT_HTTP answers.
pub mod Duplicates
mod Tests
use torrest_cpp.Prelude.{Bool, true, Option, none, some, List, [], if◌then◌else◌, Bytes, bytes}
use torrest_cpp.Prelude.{Result, ok, err, ◌>>=◌, ◌>>◌}
use torrest_cpp.Text.{starts_with}
use torrest_cpp.Bittorrent.Handle.{HandleCall}
use torrest_cpp.Bittorrent.Exceptions.{duplicate_torrent}
use torrest_cpp.Bittorrent.Service.{
  Service, Params, Added, Parsed, ServiceCall, Addition, add_magnet, add_torrent_data,
}
use torrest_cpp.Api.Errors.{ApiException, bittorrent, unescape}

-- The info hash of the answer, the service and the calls, or a refusal with its status.
pub data NewTorrent : Type 0 where
  new_torrent : Bytes → Service → List HandleCall → List ServiceCall → NewTorrent
  bad_request : Bytes → NewTorrent

-- `handle_duplicate_torrent`; `addition` is what `pFun` does.
pub handle_duplicate_torrent : Addition → Bool → Service → Result ApiException NewTorrent
handle_duplicate_torrent (ok (s2, h, cs, ds)) ignore_duplicate s = ok (new_torrent h s2 cs ds)
handle_duplicate_torrent (err (duplicate_torrent h)) ignore_duplicate s =
    if ignore_duplicate then ok (new_torrent h s [] []) else err (bittorrent (duplicate_torrent h))
handle_duplicate_torrent (err e) ignore_duplicate s = err (bittorrent e)

module _ (iequals : Bytes → Bytes → Bool) (join : Bytes → Bytes → Bytes)
    (session : Params → Result Bytes Added) (parse : Bytes → Result Bytes Parsed) where
  pub add_magnet_uri : Bytes → Bool → Bool → Service → Result ApiException NewTorrent
  unfolding handle_duplicate_torrent
  add_magnet_uri uri download ignore_duplicate s = unescape uri >>= λ magnet.
      if starts_with magnet (bytes "magnet:")
      then handle_duplicate_torrent (add_magnet iequals join session parse magnet download true s)
          ignore_duplicate s
      else ok (bad_request (bytes "Invalid magnet provided"))

  -- `payload` is the part "torrent" of the request, none where it is not there or has none.
  pub add_torrent : Option Bytes → Bool → Bool → Service → Result ApiException NewTorrent
  unfolding handle_duplicate_torrent
  add_torrent none download ignore_duplicate s =
      ok (bad_request (bytes "torrent file needs to be provided"))
  add_torrent (some payload) download ignore_duplicate s =
      handle_duplicate_torrent (add_torrent_data iequals join session parse payload download s)
        ignore_duplicate s
