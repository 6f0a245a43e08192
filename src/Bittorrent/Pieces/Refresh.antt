-- ===== src/Bittorrent/Pieces/Refresh.antt =====
-- A read of a piece puts off its expiry.
use torrest_cpp.Prelude.{
  ℕ, ◌≡◌, refl, subst, ◌⊎◌, inl, inr, Option, some, List, [], ◌∷◌, Bool-cases, Option-cases,
}
use torrest_cpp.Bittorrent.Pieces.Laws.{
  find-insert_self, Distinct, insert-Distinct, cleanup_pieces-Distinct, Cleaned,
  find-cleanup_pieces,
}
use torrest_cpp.Bittorrent.Pieces.{
  PieceData, Pieces, find, insert, store_piece, cleanup_pieces, CacheEvent, store, cleanup,
  apply_event, apply_events, Wake, Reading, got, threw, waiting, touched, has_passed,
  read_scheduled_piece, read_piece,
}

-- The times of the rounds of a wait.
abbrev pub IsRoundAt : ℕ → ℕ → List Wake → Type 0
IsRoundAt t now [] = t ≡ now
IsRoundAt t now (w ∷ ws) = (t ≡ now) ⊎ IsRoundAt t w.now ws

module _ (p expiration later : ℕ) where
  -- What is returned was read at a time that `IsTime` holds of, is cached like that, and a cleanup
  -- later goes by that time.
  abbrev pub Refreshed : (ℕ → Type 0) → Reading → Type 0
  Refreshed IsTime (got d qs) =
      IsTime d.read_at
      × (find p qs ≡ some d)
      × Cleaned expiration later (some d) (find p (cleanup_pieces expiration later qs))
  Refreshed IsTime (threw e qs) = Unit {0}
  Refreshed IsTime (waiting qs) = Unit {0}

  Refreshed-map :
      (P Q : ℕ → Type 0) (x : Reading) → ((t : ℕ) → P t → Q t) → Refreshed P x → Refreshed Q x
  Refreshed-map P Q (got d qs) map (t, e, c) = (map d.read_at t, e, c)
  Refreshed-map P Q (threw e qs) map r = tt
  Refreshed-map P Q (waiting qs) map r = tt

  hit_Refreshed :
      (IsTime : ℕ → Type 0) (now : ℕ) (ps : Pieces) (d : PieceData)
      → Distinct ps
      → IsTime now
      → Refreshed IsTime (got (touched d now) (insert p (touched d now) ps))
  hit_Refreshed IsTime now ps d distinct is =
      let e = find-insert_self p (touched d now) ps in
      let qs = insert p (touched d now) ps in
      (
        is,
        e,
        subst (λ o. Cleaned expiration later o (find p (cleanup_pieces expiration later qs))) e
            (find-cleanup_pieces expiration later p qs
              (insert-Distinct p (touched d now) ps distinct)),
      )

  apply_events-Distinct :
      (es : List CacheEvent) (ps : Pieces) → Distinct ps → Distinct (apply_events es ps)
  unfolding apply_events apply_event store_piece
  apply_events-Distinct [] ps d = d
  apply_events-Distinct (store q size buffer now ∷ es) ps d =
      apply_events-Distinct es _ (insert-Distinct q _ ps d)
  apply_events-Distinct (cleanup x now ∷ es) ps d =
      apply_events-Distinct es _ (cleanup_pieces-Distinct x now ps d)

  read_scheduled_piece-Refreshed :
      (until : Option ℕ) (now : ℕ) (ps : Pieces) (ws : List Wake)
      → Distinct ps
      → Refreshed (λ t. IsRoundAt t now ws) (read_scheduled_piece p until now ps ws)
  unfolding read_scheduled_piece
  read_scheduled_piece-Refreshed until now ps [] d = elim (Option-cases (find p ps)) [
    | inl e ↦
        rw (e, read_scheduled_piece)
          (elim (Bool-cases (has_passed until now)) [ inl b ↦ rw b tt | inr b ↦ rw b tt ])
    | inr (x, e) ↦ rw (e, read_scheduled_piece) (hit_Refreshed (λ t. t ≡ now) now ps x d refl)
  ]
  read_scheduled_piece-Refreshed until now ps (w ∷ ws) d =
      let after = apply_events w.events ps in
      let later =
        Refreshed-map (λ t. IsRoundAt t w.now ws) (λ t. IsRoundAt t now (w ∷ ws))
          (read_scheduled_piece p until w.now after ws) (λ t r. inr r)
          (read_scheduled_piece-Refreshed until w.now after ws
            (apply_events-Distinct w.events ps d)) in
      elim (Option-cases (find p ps)) [
        | inl e ↦
            rw (e, read_scheduled_piece)
              (elim (Bool-cases (has_passed until now)) [ inl b ↦ rw b tt | inr b ↦ rw b later ])
        | inr (x, e) ↦
            rw (e, read_scheduled_piece)
              (hit_Refreshed (λ t. IsRoundAt t now (w ∷ ws)) now ps x d (inl refl))
      ]

  -- Where no piece is cached twice, a read of a piece that returns marks it as read at the time of one of
  -- its looks, the first one or one of the wait, in what it returns and in the cache, so that a cleanup
  -- removes it exactly if the expiration has gone by from then on.
  pub read_piece-Refreshed :
      (until : Option ℕ) (now : ℕ) (ps : Pieces) (start : Wake) (ws : List Wake)
      → Distinct ps
      → Refreshed (λ t. (t ≡ now) ⊎ IsRoundAt t start.now ws) (read_piece p until now ps start ws).1
  unfolding read_piece
  read_piece-Refreshed until now ps start ws d = elim (Option-cases (find p ps)) [
    | inl e ↦
        rw (e, read_piece)
          (Refreshed-map (λ t. IsRoundAt t start.now ws) (λ t. (t ≡ now) ⊎ IsRoundAt t start.now ws)
            (read_scheduled_piece p until start.now (apply_events start.events ps) ws)
            (λ t r. inr r)
            (read_scheduled_piece-Refreshed until start.now (apply_events start.events ps) ws
              (apply_events-Distinct start.events ps d)))
    | inr (x, e) ↦
        rw (e, read_piece)
          (hit_Refreshed (λ t. (t ≡ now) ⊎ IsRoundAt t start.now ws) now ps x d (inl refl))
  ]
