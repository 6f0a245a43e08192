-- ===== src/Bittorrent/Service/History.antt =====
-- The services that additions, removals, loads, alerts and reconfigurations lead to.
use torrest_cpp.Prelude.{ℕ, ◌≡◌, subst, Bool, true, false, List, [], Bytes}
use torrest_cpp.Prelude.{Result, ok}
use torrest_cpp.Bittorrent.Handle.{Handle, HandleCall}
use torrest_cpp.Bittorrent.Torrent.{Torrent}
use torrest_cpp.Bittorrent.Service.{
  Service, Params, Added, ServiceCall, add_torrent_with_params, remove_torrent,
}
use torrest_cpp.Bittorrent.Service.Alerts.{Alert, handle_alert, cleanup_all}
use torrest_cpp.Bittorrent.Service.Distinct.{Adds-Unique, remove_torrent-Unique}
use torrest_cpp.Bittorrent.Service.Alerts.Hashes.{handle_alert-Unique, cleanup_all-Unique}
use torrest_cpp.Bittorrent.Service.Loading.{Entry, Sources, load_torrent_files}
use torrest_cpp.Bittorrent.Service.Loading.Directory.{load_torrent_files-IsLoaded}
use torrest_cpp.Bittorrent.Service.Lookup.{IsEquivalence, Unique}
use torrest_cpp.Bittorrent.Service.Registry.{add_torrent_with_params-Adds}
use torrest_cpp.Bittorrent.Service.Reset.{reconfigure, remove_torrents}

-- The steps that change `mTorrents`, whatever the session, libtorrent and the file system say.
pub data Step (iequals : Bytes → Bytes → Bool) (s : Service) : Service → Type 0 where
  adds :
      {s2 : Service} (session : Params → Result Bytes Added) (p : Params) (h : Bytes)
      (is_resume_data download : Bool) {cs : List HandleCall}
      → add_torrent_with_params iequals session p h is_resume_data download s ≡ ok (s2, cs)
      → Step iequals s s2
  removes :
      {s2 : Service} (join : Bytes → Bytes → Bytes) (h : Bytes) (remove_files : Bool) {t : Torrent}
      {cs : List ServiceCall}
      → remove_torrent iequals join h remove_files s ≡ ok (s2, t, cs)
      → Step iequals s s2
  loads :
      {s2 : Service} (join : Bytes → Bytes → Bytes) (session : Params → Result Bytes Added)
      (src : Sources) (torrents downloads : List Entry) {cs : List HandleCall}
      {ds : List ServiceCall}
      → load_torrent_files iequals join session src torrents downloads s ≡ ok (s2, cs, ds)
      → Step iequals s s2
  handles :
      (join : Bytes → Bytes → Bytes) (handle_of : Torrent → Handle) (checks_space : Bool)
      (alert : Alert)
      → Step iequals s (handle_alert iequals join handle_of checks_space alert s).0
  cleans :
      (expiration now : ℕ)
      → Step iequals s (record s { torrents = cleanup_all expiration now s.torrents })
  reconfigures :
      {s2 : Service} (join : Bytes → Bytes → Bytes) (session : Params → Result Bytes Added)
      (src : Sources) (torrents downloads : List Entry) (download_path torrents_path : Bytes)
      (is_reset : Bool) {closed : List Torrent} {cs : List HandleCall} {ds : List ServiceCall}
      → reconfigure iequals join session src torrents downloads download_path torrents_path is_reset
          s
        ≡ ok (s2, closed, cs, ds)
      → Step iequals s s2

pub data Reachable (iequals : Bytes → Bytes → Bool) : Service → Type 0 where
  started :
      (download_path torrents_path : Bytes)
      → Reachable iequals
          (record { torrents = []; download_path = download_path; torrents_path = torrents_path })
  stepped : {s s2 : Service} → Reachable iequals s → Step iequals s s2 → Reachable iequals s2

module _ (iequals : Bytes → Bytes → Bool) (e : IsEquivalence iequals) where
  load-Unique :
      (join : Bytes → Bytes → Bytes) (session : Params → Result Bytes Added) (src : Sources)
      (torrents downloads : List Entry) (s : Service) {s2 : Service} {cs : List HandleCall}
      {ds : List ServiceCall}
      → load_torrent_files iequals join session src torrents downloads s ≡ ok (s2, cs, ds)
      → Unique iequals s.torrents
      → Unique iequals s2.torrents
  load-Unique join session src torrents downloads s {s2 = s2} eq u =
      let (s3, cs3, ds3, ran, loaded) =
        load_torrent_files-IsLoaded iequals join session src e torrents downloads s in
      let same : s3 ≡ s2 = cc (ran, eq) in
      subst (λ x. Unique iequals x.torrents) same (loaded.unique u)

  reconfigure-Unique :
      (join : Bytes → Bytes → Bytes) (session : Params → Result Bytes Added) (src : Sources)
      (torrents downloads : List Entry) (download_path torrents_path : Bytes) (is_reset : Bool)
      (s : Service) {s2 : Service} {closed : List Torrent} {cs : List HandleCall}
      {ds : List ServiceCall}
      → reconfigure iequals join session src torrents downloads download_path torrents_path is_reset
          s
        ≡ ok (s2, closed, cs, ds)
      → Unique iequals s.torrents
      → Unique iequals s2.torrents
  unfolding reconfigure remove_torrents
  reconfigure-Unique join session src torrents downloads dp tp false s {s2 = s2} eq u =
      let same : record s { download_path = dp; torrents_path = tp } ≡ s2 = cc in
      subst (λ x. Unique iequals x.torrents) same u
  reconfigure-Unique join session src torrents downloads dp tp true s {s2 = s2} eq u =
      let empty : Service = record { torrents = []; download_path = dp; torrents_path = tp } in
      let (s3, cs3, ds3, ran, loaded) =
        load_torrent_files-IsLoaded iequals join session src e torrents downloads empty in
      let same : s3 ≡ s2 = let k = rw ran at eq in cc in
      subst (λ x. Unique iequals x.torrents) same (loaded.unique tt)

  -- However torrents are added, removed, loaded from a directory and reset, and whatever alerts are
  -- handled, with `boost::iequals` an equivalence, no two torrents of the service ever have the same info
  -- hash up to case.
  pub Reachable-Unique : {s : Service} → Reachable iequals s → Unique iequals s.torrents
  Reachable-Unique (started download_path torrents_path) = tt
  Reachable-Unique (stepped r (adds session p h is_resume_data download eq)) =
      Adds-Unique iequals e h _ _
        (add_torrent_with_params-Adds iequals session p h is_resume_data download _) eq
        (Reachable-Unique r)
  Reachable-Unique (stepped r (removes join h remove_files eq)) =
      remove_torrent-Unique iequals e join h remove_files _ eq (Reachable-Unique r)
  Reachable-Unique (stepped r (loads join session src torrents downloads eq)) =
      load-Unique join session src torrents downloads _ eq (Reachable-Unique r)
  Reachable-Unique (stepped r (handles join handle_of checks_space alert)) =
      handle_alert-Unique iequals join handle_of checks_space alert _ (Reachable-Unique r)
  Reachable-Unique (stepped r (cleans expiration now)) =
      cleanup_all-Unique iequals expiration now _ (Reachable-Unique r)
  Reachable-Unique
        (stepped r (reconfigures join session src torrents downloads dp tp is_reset eq)) =
      reconfigure-Unique join session src torrents downloads dp tp is_reset _ eq
        (Reachable-Unique r)
