-- ===== src/Bittorrent/Service/Alerts/Effects.antt =====
-- What each alert does to the service and to its files.
use torrest_cpp.Prelude.{
  ℕ, ◌-◌, ◌<◌, ◌≡◌, ◌++◌, bytes, arith, refl, sym, subst, ◌∙◌, ◌≢◌, inl, inr, Bool, true, false,
  ◌&&◌, Option, none, some, List, [], ◌∷◌, ltb, ==-false, Bool-cases, Option-cases, Bytes,
}
use torrest_cpp.Bittorrent.Handle.{Handle, HandleCall, HandleState, unset_auto_managed, pause}
use torrest_cpp.Bittorrent.File.{File}
use torrest_cpp.Bittorrent.Pieces.{PieceData, find, insert, store_piece}
use torrest_cpp.Bittorrent.Pieces.Laws.{find-insert, find-insert_self}
use torrest_cpp.Bittorrent.Torrent.{Torrent, Metadata, check_available_space, pause_torrent}
use torrest_cpp.Bittorrent.Torrent.Files.{AllFresh, handle_metadata_received_lem}
use torrest_cpp.Bittorrent.Service.{Service, write_file, remove_file, find_torrent}
use torrest_cpp.Bittorrent.Service.Alerts.{
  Alert, save_resume_data, metadata_received, state_changed, read_piece, Space, Handled,
  change_torrent, handle_save_resume_data, handle_metadata_received, handle_state_changed,
  handle_read_piece_alert, handle_alert, is_downloading,
}
use torrest_cpp.Bittorrent.Service.Store.{with_torrent, Replaced, with_torrent-Replaced}

module _ (iequals : Bytes → Bytes → Bool) (join : Bytes → Bytes → Bytes)
    (handle_of : Torrent → Handle) (checks_space : Bool) (s : Service) where
  -- A torrent that goes on downloading and is short of space, where that is checked.
  abbrev pub IsShort : HandleState → Space → Type 0
  IsShort state space =
      (checks_space ≡ true)
      × (state ≡ HandleState.downloading)
      × (space.has_metadata ≡ true)
      × (space.free < space.total - space.total_done)

  pub data Effect : Alert → Handled → Type 0 where
    saved :
        (h buffer : Bytes)
        → Effect
            (save_resume_data h buffer)
            (s, [], write_file (join s.torrents_path (h ++ bytes ".fastresume")) buffer ∷ [])
    received :
        (h torrent_file : Bytes) (m : Metadata) (t : Torrent) (fs : List File) (s2 : Service)
        (cs : List HandleCall)
        → find_torrent iequals h s.torrents ≡ some t
        → AllFresh m.piece_length 0 m.entries fs
        → Replaced iequals h t (record t { files = fs; has_metadata = true }) s s2
        → Effect (metadata_received h m torrent_file) (
          s2,
          cs,
          write_file (join s.torrents_path (h ++ bytes ".torrent")) torrent_file
              ∷ remove_file (join s.torrents_path (h ++ bytes ".magnet"))
              ∷ [],
        )
    received_late :
        (h torrent_file : Bytes) (m : Metadata)
        → find_torrent iequals h s.torrents ≡ none
        → Effect (metadata_received h m torrent_file) (
          s,
          [],
          write_file (join s.torrents_path (h ++ bytes ".torrent")) torrent_file
              ∷ remove_file (join s.torrents_path (h ++ bytes ".magnet"))
              ∷ [],
        )
    paused :
        (h : Bytes) (state : HandleState) (space : Space) (t : Torrent) (s2 : Service)
        → find_torrent iequals h s.torrents ≡ some t
        → IsShort state space
        → Replaced iequals h t (record t { is_paused = true }) s s2
        → Effect (state_changed h state space) (s2, unset_auto_managed ∷ pause ∷ [], [])
    continued :
        (h : Bytes) (state : HandleState) (space : Space) (t : Torrent) (s2 : Service)
        → find_torrent iequals h s.torrents ≡ some t
        → ¬ IsShort state space
        → Replaced iequals h t t s s2
        → Effect (state_changed h state space) (s2, [], [])
    stored :
        (h : Bytes) (piece size : ℕ) (buffer : Bytes) (now : ℕ) (t u : Torrent) (s2 : Service)
        → find_torrent iequals h s.torrents ≡ some t
        → Replaced iequals h t u s s2
        → find piece u.pieces ≡ some (record { size = size; buffer = buffer; read_at = now })
        → ((q : ℕ) → piece ≢ q → find q u.pieces ≡ find q t.pieces)
        → Effect (read_piece h piece (some (size, buffer)) now) (s2, [], [])
    unread : (h : Bytes) (piece now : ℕ) → Effect (read_piece h piece none now) (s, [], [])
    state_unknown :
        (h : Bytes) (state : HandleState) (space : Space)
        → find_torrent iequals h s.torrents ≡ none
        → Effect (state_changed h state space) (s, [], [])
    piece_unknown :
        (h : Bytes) (piece now : ℕ) (x : ℕ × Bytes)
        → find_torrent iequals h s.torrents ≡ none
        → Effect (read_piece h piece (some x) now) (s, [], [])

  IsShort-IsShort :
      (state : HandleState) (space : Space)
      → (checks_space && is_downloading state) ≡ true
      → (space.has_metadata && ltb space.free (space.total - space.total_done)) ≡ true
      → IsShort state space
  IsShort-IsShort HandleState.downloading space c e = ground arith
  IsShort-IsShort HandleState.checking_files space c e = ground arith
  IsShort-IsShort HandleState.downloading_metadata space c e = ground arith
  IsShort-IsShort HandleState.finished space c e = ground arith
  IsShort-IsShort HandleState.seeding space c e = ground arith
  IsShort-IsShort HandleState.checking_resume_data space c e = ground arith
  IsShort-IsShort HandleState.unused_allocating space c e = ground arith
  IsShort-IsShort HandleState.unknown space c e = ground arith

  idle-not-IsShort :
      (state : HandleState) (space : Space)
      → (checks_space && is_downloading state) ≡ false
      → ¬ IsShort state space
  idle-not-IsShort state space c b =
      let k : (checks_space && is_downloading HandleState.downloading) ≡ false =
        subst (λ z. (checks_space && is_downloading z) ≡ false) b.1 c in
      ground (arith, b.0, k)

  enough-not-IsShort :
      (state : HandleState) (space : Space)
      → (space.has_metadata && ltb space.free (space.total - space.total_done)) ≡ false
      → ¬ IsShort state space
  enough-not-IsShort state space c b = ground (arith, b.2, b.3)

  metadata-Effect :
      (h torrent_file : Bytes) (m : Metadata)
      → Effect
          (metadata_received h m torrent_file)
          (handle_metadata_received iequals join handle_of checks_space h m torrent_file s)
  unfolding handle_metadata_received change_torrent
  metadata-Effect h torrent_file m = elim (Option-cases (find_torrent iequals h s.torrents)) [
    | inl gone ↦
        subst (Effect (metadata_received h m torrent_file)) (sym (rw (gone, change_torrent) refl))
          (received_late h torrent_file m gone)
    | inr (t, found) ↦
        let (fs, cs, e, fresh) = handle_metadata_received_lem (handle_of t) m t in
        let u : Torrent = record t { files = fs; has_metadata = true } in
        subst (Effect (metadata_received h m torrent_file))
          (sym (rw (found, change_torrent, e) refl))
          (received h torrent_file m t fs (with_torrent iequals h u s) cs found fresh
            (with_torrent-Replaced iequals h t u s found refl))
  ]

  state-Effect :
      (h : Bytes) (state : HandleState) (space : Space)
      → Effect
          (state_changed h state space)
          (handle_state_changed iequals join handle_of checks_space h state space s)
  unfolding handle_state_changed change_torrent check_available_space pause_torrent
  state-Effect h state space = elim (Option-cases (find_torrent iequals h s.torrents)) [
    | inl gone ↦ elim (Bool-cases (checks_space && is_downloading state)) [
      | inl c ↦
          subst (Effect (state_changed h state space)) (sym (rw (c, gone, change_torrent) refl))
            (state_unknown h state space gone)
      | inr c ↦
          subst (Effect (state_changed h state space)) (sym (rw c refl))
            (state_unknown h state space gone)
    ]
    | inr (t, found) ↦ elim (Bool-cases (checks_space && is_downloading state)) [
      | inr c ↦ subst (Effect (state_changed h state space)) (sym (rw c refl)) (
          continued h state space t s found (idle-not-IsShort state space c)
            (record { here = found; others = λ g other. refl }))
      | inl c ↦
          elim (Bool-cases
            (space.has_metadata && ltb space.free (space.total - space.total_done))) [
              | inl short ↦
                  subst (Effect (state_changed h state space))
                    (sym (rw (c, found, change_torrent, short) refl))
                    (paused h state space t _ found (IsShort-IsShort state space c short) (
                      with_torrent-Replaced iequals h t (record t { is_paused = true }) s found
                        refl))
              | inr enough ↦
                  subst (Effect (state_changed h state space))
                    (sym (rw (c, found, change_torrent, enough) refl))
                    (continued h state space t _ found (enough-not-IsShort state space enough)
                      (with_torrent-Replaced iequals h t t s found refl))
            ]
    ]
  ]

  piece-Effect :
      (h : Bytes) (piece : ℕ) (x : Option (ℕ × Bytes)) (now : ℕ)
      → Effect
          (read_piece h piece x now)
          (handle_read_piece_alert iequals join handle_of checks_space h piece x now s)
  unfolding handle_read_piece_alert change_torrent store_piece
  piece-Effect h piece none now = unread h piece now
  piece-Effect h piece (some (size, buffer)) now =
      elim (Option-cases (find_torrent iequals h s.torrents)) [
        | inl gone ↦
            subst (Effect (read_piece h piece (some (size, buffer)) now))
              (sym (rw (gone, change_torrent) refl)) (piece_unknown h piece now (size, buffer) gone)
        | inr (t, found) ↦
            let d : PieceData = record { size = size; buffer = buffer; read_at = now } in
            let u : Torrent = record t { pieces = insert piece d t.pieces } in
            subst (Effect (read_piece h piece (some (size, buffer)) now))
              (sym (rw (found, change_torrent) refl))
              (stored h piece size buffer now t u (with_torrent iequals h u s) found
                (with_torrent-Replaced iequals h t u s found refl)
                (find-insert_self piece d t.pieces)
                (λ q apart. find-insert piece q d t.pieces ∙ rw (==-false piece q apart) refl))
      ]

  -- What an alert does: resume data is saved; metadata makes the files of its torrent, and in every case
  -- its torrent file is written and its magnet file removed; a torrent that starts downloading is paused
  -- if space is checked and short; a piece that was read is stored in its torrent's cache and the other
  -- pieces stay; an alert for a torrent that is not there changes no torrent. Other torrents are found as
  -- before.
  pub handle_alert-Effect :
      (alert : Alert) → Effect alert (handle_alert iequals join handle_of checks_space alert s)
  unfolding handle_alert handle_save_resume_data
  handle_alert-Effect (save_resume_data h buffer) = saved h buffer
  handle_alert-Effect (metadata_received h m torrent_file) = metadata-Effect h torrent_file m
  handle_alert-Effect (state_changed h state space) = state-Effect h state space
  handle_alert-Effect (read_piece h piece x now) = piece-Effect h piece x now
