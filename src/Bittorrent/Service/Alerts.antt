-- ===== src/Bittorrent/Service/Alerts.antt =====
-- What src/bittorrent/service.cpp does at the alerts of the session, and in a round of the cleanup of
-- pieces. An alert is given with what its handler reads of it and of the torrent's handle.
pub mod Hashes
mod Tests
pub mod Effects
use torrest_cpp.Prelude.{
  ℕ, Bool, true, false, ◌&&◌, Option, none, some, List, [], ◌∷◌, if◌then◌else◌, Bytes,
}
use torrest_cpp.Prelude.{Result, ok, err}
use torrest_cpp.Bittorrent.Handle.{Handle, HandleCall, HandleState}
use torrest_cpp.Bittorrent.Handle
use torrest_cpp.Bittorrent.Exceptions.{Exception}
use torrest_cpp.Bittorrent.Pieces.{store_piece, cleanup_pieces}
use torrest_cpp.Bittorrent.Service.{
  Service, ServiceCall, write_file, remove_file, find_torrent, get_fast_resume_file,
  get_torrent_file, get_magnet_file,
}
use torrest_cpp.Bittorrent.Service.Store.{with_torrent}
use torrest_cpp.Bittorrent.Torrent.{Torrent, Metadata, check_available_space}
use torrest_cpp.Bittorrent.Torrent

-- What `check_available_space` reads: `free` is the space left at the download path.
pub record Space : Type 0 where
  pub has_metadata : Bool
  pub free : ℕ
  pub total : ℕ
  pub total_done : ℕ

-- The alerts with a handler, each with the info hash. `read_piece` comes with the piece, its size and
-- its bytes, none where the read failed, and the time.
pub data Alert : Type 0 where
  save_resume_data : Bytes → Bytes → Alert
  metadata_received : Bytes → Metadata → Bytes → Alert
  state_changed : Bytes → HandleState → Space → Alert
  read_piece : Bytes → ℕ → Option (ℕ × Bytes) → ℕ → Alert

abbrev pub is_downloading : HandleState → Bool
is_downloading HandleState.downloading = true
is_downloading _ = false

-- The service and the calls to handles and to files.
abbrev pub Handled : Type 0
Handled = Service × List HandleCall × List ServiceCall

-- `catch (const std::exception &e)`, which only logs.
abbrev pub or_unchanged :
    Torrent → Result Exception (Torrent × List HandleCall) → Torrent × List HandleCall
or_unchanged t (ok x) = x
or_unchanged t (err e) = (t, [])

module _ (iequals : Bytes → Bytes → Bool) where
  -- `get_torrent(infoHash)->...` under a `try`: nothing for an unknown torrent.
  pub change_torrent :
      Bytes → (Torrent → Torrent × List HandleCall) → Service → Service × List HandleCall
  change_torrent h change s = elim (find_torrent iequals h s.torrents) [
    | none ↦ (s, [])
    | some t ↦ (with_torrent iequals h (change t).0 s, (change t).1)
  ]

  module _ (join : Bytes → Bytes → Bytes) (handle_of : Torrent → Handle) (checks_space : Bool) where
    -- `torrent_file` is the torrent file that is made of the metadata.
    pub handle_metadata_received : Bytes → Metadata → Bytes → Service → Handled
    unfolding change_torrent
    handle_metadata_received h m torrent_file s =
        let (s2, cs) =
          change_torrent h
            (λ t. or_unchanged t (Torrent.handle_metadata_received (handle_of t) m t)) s in
        (
          s2,
          cs,
          write_file (get_torrent_file join h s) torrent_file
              ∷ remove_file (get_magnet_file join h s)
              ∷ [],
        )

    pub handle_state_changed : Bytes → HandleState → Space → Service → Handled
    unfolding change_torrent
    handle_state_changed h state space s =
        let (s2, cs) =
          change_torrent h
            (check_available_space space.has_metadata space.free space.total space.total_done) s in
        if checks_space && is_downloading state then (s2, cs, []) else (s, [], [])

    pub handle_read_piece_alert : Bytes → ℕ → Option (ℕ × Bytes) → ℕ → Service → Handled
    unfolding change_torrent
    handle_read_piece_alert h piece none now s = (s, [], [])
    handle_read_piece_alert h piece (some (size, buffer)) now s =
        let (s2, cs) =
          change_torrent h
            (λ t. (record t { pieces = store_piece piece size buffer now t.pieces }, [])) s in
        (s2, cs, [])

    -- `buffer` is what `write_resume_data_buf` gives.
    pub handle_save_resume_data : Bytes → Bytes → Service → Handled
    handle_save_resume_data h buffer s =
        (s, [], write_file (get_fast_resume_file join h s) buffer ∷ [])

    -- The `switch` of `consume_alerts_handler`.
    pub handle_alert : Alert → Service → Handled
    unfolding handle_save_resume_data handle_metadata_received handle_state_changed
        handle_read_piece_alert
    handle_alert (save_resume_data h buffer) s = handle_save_resume_data h buffer s
    handle_alert (metadata_received h m torrent_file) s =
        handle_metadata_received h m torrent_file s
    handle_alert (state_changed h state space) s = handle_state_changed h state space s
    handle_alert (read_piece h piece data_read now) s =
        handle_read_piece_alert h piece data_read now s

-- A round of `piece_cleanup_handler`.
pub cleanup_all : ℕ → ℕ → List Torrent → List Torrent
cleanup_all expiration now [] = []
cleanup_all expiration now (t ∷ ts) =
    record t { pieces = cleanup_pieces expiration now t.pieces } ∷ cleanup_all expiration now ts
