-- ===== src/Bittorrent/Service/Alerts/Hashes.antt =====
-- Alerts and the cleanup of pieces keep the info hashes.
use torrest_cpp.Prelude.{
  ℕ, ◌-◌, ◌≡◌, refl, sym, ap, ◌∙◌, inl, inr, Bool, false, ◌&&◌, none, some, List, [], ◌∷◌, ltb,
  Bool-cases, Option-cases, Bytes,
}
use torrest_cpp.Bittorrent.Handle.{Handle, HandleCall}
use torrest_cpp.Bittorrent.Torrent.{Torrent, check_available_space, pause_torrent}
use torrest_cpp.Bittorrent.Torrent.Files.{handle_metadata_received_lem}
use torrest_cpp.Bittorrent.Service.{Service, find_torrent}
use torrest_cpp.Bittorrent.Service.Alerts.{
  Alert, save_resume_data, metadata_received, state_changed, read_piece, change_torrent,
  handle_save_resume_data, handle_metadata_received, handle_state_changed, handle_read_piece_alert,
  handle_alert, cleanup_all, is_downloading,
}
use torrest_cpp.Bittorrent.Service.Lookup.{Unique}
use torrest_cpp.Bittorrent.Service.Store.{replace, with_torrent}

-- The same info hashes in the same order.
abbrev SameHashes : List Torrent → List Torrent → Type 0
SameHashes [] [] = Unit
SameHashes (t ∷ ts) (u ∷ us) = (u.info_hash ≡ t.info_hash) × SameHashes ts us
SameHashes _ _ = ⊥

same_refl : (ts : List Torrent) → SameHashes ts ts
same_refl [] = tt
same_refl (t ∷ ts) = (refl, same_refl ts)

space_hash :
    (metadata : Bool) (free total total_done : ℕ) (t : Torrent)
    → (check_available_space metadata free total total_done t).0.info_hash ≡ t.info_hash
unfolding check_available_space pause_torrent
space_hash metadata free total total_done t =
    elim (Bool-cases (metadata && ltb free (total - total_done))) [
      | inl c ↦ rw c refl
      | inr c ↦ rw c refl
    ]

module _ (iequals : Bytes → Bytes → Bool) where
  same_none :
      (g : Bytes) (ts us : List Torrent)
      → SameHashes ts us
      → find_torrent iequals g ts ≡ none
      → find_torrent iequals g us ≡ none
  unfolding find_torrent
  same_none g [] [] same gone = refl
  same_none g [] (u ∷ us) same gone = elim same [ ]
  same_none g (t ∷ ts) [] same gone = elim same [ ]
  same_none g (t ∷ ts) (u ∷ us) same gone = elim (Bool-cases (iequals t.info_hash g)) [
    | inl c ↦ absurd (let k = rw c at gone in cc)
    | inr c ↦
        let k : iequals u.info_hash g ≡ false = rw same.0 c in
        rw k (same_none g ts us same.1 (rw c at gone))
  ]

  same-Unique : (ts us : List Torrent) → SameHashes ts us → Unique iequals ts → Unique iequals us
  same-Unique [] [] same u = tt
  same-Unique [] (x ∷ us) same u = elim same [ ]
  same-Unique (t ∷ ts) [] same u = elim same [ ]
  same-Unique (t ∷ ts) (x ∷ us) same u =
      (rw same.0 (same_none t.info_hash ts us same.1 u.0), same-Unique ts us same.1 u.1)

  replace_same :
      (h : Bytes) (t u : Torrent) (ts : List Torrent)
      → find_torrent iequals h ts ≡ some t
      → u.info_hash ≡ t.info_hash
      → SameHashes ts (replace iequals h u ts)
  unfolding find_torrent replace
  replace_same h t u [] found hash = tt
  replace_same h t u (x ∷ ts) found hash = elim (Bool-cases (iequals x.info_hash h)) [
    | inl c ↦
        let first : x ≡ t = let k = rw c at found in cc in
        rw c (hash ∙ sym (ap (λ k. k.info_hash) first), same_refl ts)
    | inr c ↦ rw c (refl, replace_same h t u ts (rw c at found) hash)
  ]

  change_torrent-Unique :
      (h : Bytes) (change : Torrent → Torrent × List HandleCall) (s : Service)
      → ((t : Torrent) → (change t).0.info_hash ≡ t.info_hash)
      → Unique iequals s.torrents
      → Unique iequals (change_torrent iequals h change s).0.torrents
  unfolding change_torrent with_torrent
  change_torrent-Unique h change s keeps u =
      elim (Option-cases (find_torrent iequals h s.torrents)) [
        | inl gone ↦ rw (gone, change_torrent) u
        | inr (t, found) ↦
            rw (found, change_torrent)
              (same-Unique s.torrents _ (replace_same h t (change t).0 s.torrents found (keeps t))
                u)
      ]

  pub handle_alert-Unique :
      (join : Bytes → Bytes → Bytes) (handle_of : Torrent → Handle) (checks_space : Bool)
      (alert : Alert) (s : Service)
      → Unique iequals s.torrents
      → Unique iequals (handle_alert iequals join handle_of checks_space alert s).0.torrents
  unfolding handle_alert handle_save_resume_data handle_metadata_received handle_state_changed
      handle_read_piece_alert
  handle_alert-Unique join handle_of checks (save_resume_data h buffer) s u = u
  handle_alert-Unique join handle_of checks (metadata_received h m torrent_file) s u =
      change_torrent-Unique h _ s
        (λ t. let (fs, cs, e, _) = handle_metadata_received_lem (handle_of t) m t in rw e refl) u
  handle_alert-Unique join handle_of checks (state_changed h state space) s u =
      elim (Bool-cases (checks && is_downloading state)) [
        | inl c ↦ rw c (
            change_torrent-Unique h _ s
              (space_hash space.has_metadata space.free space.total space.total_done) u)
        | inr c ↦ rw c u
      ]
  handle_alert-Unique join handle_of checks (read_piece h piece none now) s u = u
  handle_alert-Unique join handle_of checks (read_piece h piece (some (size, buffer)) now) s u =
      change_torrent-Unique h _ s (λ t. refl) u

cleanup_same :
    (expiration now : ℕ) (ts : List Torrent) → SameHashes ts (cleanup_all expiration now ts)
unfolding cleanup_all
cleanup_same expiration now [] = tt
cleanup_same expiration now (t ∷ ts) = (refl, cleanup_same expiration now ts)

pub cleanup_all-Unique :
    (iequals : Bytes → Bytes → Bool) (expiration now : ℕ) (ts : List Torrent)
    → Unique iequals ts
    → Unique iequals (cleanup_all expiration now ts)
cleanup_all-Unique iequals expiration now ts u =
    same-Unique iequals ts _ (cleanup_same expiration now ts) u
