-- ===== src/Bittorrent/Service/Reset.antt =====
-- What `reconfigure` of src/bittorrent/service.cpp does to the torrents, with `remove_torrents`.
use torrest_cpp.Prelude.{Bool, true, false, List, [], ◌∷◌, ◌++◌, if◌then◌else◌, Bytes}
use torrest_cpp.Prelude.{Result, ok, ◌>>=◌}
use torrest_cpp.Bittorrent.Handle.{HandleCall}
use torrest_cpp.Bittorrent.Exceptions.{Exception}
use torrest_cpp.Bittorrent.Service.{Service, Params, Added, ServiceCall, remove_from_session}
use torrest_cpp.Bittorrent.Service.Loading.{Entry, Sources, load_torrent_files}
use torrest_cpp.Bittorrent.Torrent.{Torrent}

-- The torrents as their readers see them from then on.
unfoldable pub close_all : List Torrent → List Torrent
close_all [] = []
close_all (t ∷ ts) = record t { is_closed = true } ∷ close_all ts

unfoldable pub removals : List Torrent → List ServiceCall
removals [] = []
removals (t ∷ ts) = remove_from_session t.info_hash false ∷ removals ts

unfoldable pub remove_torrents : Service → Service × List Torrent × List ServiceCall
unfolding close_all removals
remove_torrents s = (record s { torrents = [] }, close_all s.torrents, removals s.torrents)

-- The part of `reconfigure` behind the session's settings. `torrents` and `downloads` are the entries of
-- the directories that the new settings name.
unfoldable pub reconfigure :
    (Bytes → Bytes → Bool)
    → (Bytes → Bytes → Bytes)
    → (Params → Result Bytes Added)
    → Sources
    → List Entry
    → List Entry
    → Bytes
    → Bytes
    → Bool
    → Service
    → Result Exception (Service × List Torrent × List HandleCall × List ServiceCall)
unfolding remove_torrents
reconfigure iequals join session src torrents downloads download_path torrents_path is_reset s =
    let updated : Service = record s {
      download_path = download_path;
      torrents_path = torrents_path;
    } in
    let (empty, closed, calls) = remove_torrents updated in
    let reloaded = load_torrent_files iequals join session src torrents downloads empty in
    if is_reset
    then reloaded >>= (λ (s2, cs, ds). ok (s2, closed, cs, calls ++ ds))
    else ok (updated, s.torrents, [], [])
