-- ===== src/Bittorrent/Pieces/Waiting.antt =====
-- What a read of a piece returns, and that it ends.
use torrest_cpp.Prelude.{
  ℕ, ◌≤◌, ◌≡◌, refl, subst, ◌⊎◌, inl, inr, Option, some, List, [], ◌∷◌, arith, leb, ◌==◌, le→leb,
  ==_iff, Bool-cases, Option-cases, length, Bytes,
}
use torrest_cpp.Bittorrent.Exceptions.{timed_out_waiting}
use torrest_cpp.Bittorrent.Pieces.{
  PieceData, Pieces, find, insert, store_piece, cleanup_pieces, CacheEvent, store, cleanup,
  apply_event, apply_events, Wake, Reading, got, threw, waiting, touched, has_passed,
  read_scheduled_piece, read_piece,
}

module _ (content : ℕ → Bytes) where
  -- The entry holds the bytes of its piece, all of them.
  abbrev pub Holds : ℕ → PieceData → Type 0
  Holds p d = (d.buffer ≡ content p) × (d.size ≡ length (content p))

  abbrev pub IsFaithful : Pieces → Type 0
  IsFaithful [] = Unit {0}
  IsFaithful ((p, d) ∷ ps) = Holds p d × IsFaithful ps

  -- The alerts carry the bytes of the pieces that they name.
  abbrev pub IsTrue : CacheEvent → Type 0
  IsTrue (store p size buffer now) = (buffer ≡ content p) × (size ≡ length (content p))
  IsTrue (cleanup expiration now) = Unit {0}

  abbrev pub AllTrue : List CacheEvent → Type 0
  AllTrue [] = Unit {0}
  AllTrue (e ∷ es) = IsTrue e × AllTrue es

  abbrev pub WakesTrue : List Wake → Type 0
  WakesTrue [] = Unit {0}
  WakesTrue (w ∷ ws) = AllTrue w.events × WakesTrue ws

  find-Holds :
      (p : ℕ) (ps : Pieces) {d : PieceData} → IsFaithful ps → find p ps ≡ some d → Holds p d
  unfolding find
  find-Holds p [] h e = absurd (cc)
  find-Holds p ((q, x) ∷ ps) {d} h e = elim (Bool-cases (q == p)) [
    | inl same ↦
        let k : q ≡ p = (==_iff q p).0 same in
        let v : x ≡ d = ground arith in subst (λ z. Holds z d) k (subst (λ y. Holds q y) v h.0)
    | inr other ↦ find-Holds p ps h.1 (rw other at e)
  ]

  insert-IsFaithful :
      (p : ℕ) (d : PieceData) (ps : Pieces) → IsFaithful ps → Holds p d → IsFaithful (insert p d ps)
  unfolding insert
  insert-IsFaithful p d [] h k = (k, tt)
  insert-IsFaithful p d ((q, e) ∷ ps) h k = ground (arith, insert-IsFaithful p d ps h.1 k)

  cleanup_pieces-IsFaithful :
      (x now : ℕ) (ps : Pieces) → IsFaithful ps → IsFaithful (cleanup_pieces x now ps)
  unfolding cleanup_pieces
  cleanup_pieces-IsFaithful x now [] h = tt
  cleanup_pieces-IsFaithful x now ((q, d) ∷ ps) h =
      ground (arith, cleanup_pieces-IsFaithful x now ps h.1)

  apply_event-IsFaithful :
      (e : CacheEvent) (ps : Pieces) → IsTrue e → IsFaithful ps → IsFaithful (apply_event e ps)
  unfolding apply_event store_piece
  apply_event-IsFaithful (store p size buffer now) ps t h = insert-IsFaithful p _ ps h t
  apply_event-IsFaithful (cleanup x now) ps t h = cleanup_pieces-IsFaithful x now ps h

  pub apply_events-IsFaithful :
      (es : List CacheEvent) (ps : Pieces)
      → AllTrue es
      → IsFaithful ps
      → IsFaithful (apply_events es ps)
  unfolding apply_events
  apply_events-IsFaithful [] ps t h = h
  apply_events-IsFaithful (e ∷ es) ps t h =
      apply_events-IsFaithful es (apply_event e ps) t.1 (apply_event-IsFaithful e ps t.0 h)

  -- However the read ends the cache stays faithful, and what it returns is the piece.
  abbrev pub Delivers : ℕ → Reading → Type 0
  Delivers p (got d ps) = Holds p d × IsFaithful ps
  Delivers p (threw e ps) = IsFaithful ps
  Delivers p (waiting ps) = IsFaithful ps

  hit_Delivers :
      (p now : ℕ) (ps : Pieces) (d : PieceData)
      → IsFaithful ps
      → find p ps ≡ some d
      → Delivers p (got (touched d now) (insert p (touched d now) ps))
  hit_Delivers p now ps d h e =
      let k = find-Holds p ps h e in (k, insert-IsFaithful p (touched d now) ps h k)

  read_scheduled_piece-Delivers :
      (p : ℕ) (until : Option ℕ) (now : ℕ) (ps : Pieces) (ws : List Wake)
      → IsFaithful ps
      → WakesTrue ws
      → Delivers p (read_scheduled_piece p until now ps ws)
  unfolding read_scheduled_piece
  read_scheduled_piece-Delivers p until now ps [] h t = elim (Option-cases (find p ps)) [
    | inl e ↦
        rw (e, read_scheduled_piece)
          (elim (Bool-cases (has_passed until now)) [ inl b ↦ rw b h | inr b ↦ rw b h ])
    | inr (d, e) ↦ rw (e, read_scheduled_piece) (hit_Delivers p now ps d h e)
  ]
  read_scheduled_piece-Delivers p until now ps (w ∷ ws) h t =
      let later =
        read_scheduled_piece-Delivers p until w.now (apply_events w.events ps) ws
          (apply_events-IsFaithful w.events ps t.0 h) t.1 in
      elim (Option-cases (find p ps)) [
        | inl e ↦
            rw (e, read_scheduled_piece)
              (elim (Bool-cases (has_passed until now)) [ inl b ↦ rw b h | inr b ↦ rw b later ])
        | inr (d, e) ↦ rw (e, read_scheduled_piece) (hit_Delivers p now ps d h e)
      ]

  -- If the cache and the alerts hold the true bytes of their pieces, then a read of a piece that
  -- returns has all the bytes of that piece, and the cache holds true bytes again, also after a
  -- time-out.
  pub read_piece-Delivers :
      (p : ℕ) (until : Option ℕ) (now : ℕ) (ps : Pieces) (start : Wake) (ws : List Wake)
      → IsFaithful ps
      → AllTrue start.events
      → WakesTrue ws
      → Delivers p (read_piece p until now ps start ws).1
  unfolding read_piece
  read_piece-Delivers p until now ps start ws h t ts = elim (Option-cases (find p ps)) [
    | inl e ↦
        rw (e, read_piece)
          (read_scheduled_piece-Delivers p until start.now (apply_events start.events ps) ws
            (apply_events-IsFaithful start.events ps t h) ts)
    | inr (d, e) ↦ rw (e, read_piece) (hit_Delivers p now ps d h e)
  ]

abbrev pub HasEnded : Reading → Type 0
HasEnded (got d ps) = Unit {0}
HasEnded (threw e ps) = e ≡ timed_out_waiting
HasEnded (waiting ps) = ⊥

-- One of the rounds is at the time `t` or later.
abbrev pub Reaches : ℕ → ℕ → List Wake → Type 0
Reaches t now [] = t ≤ now
Reaches t now (w ∷ ws) = (t ≤ now) ⊎ Reaches t w.now ws

read_scheduled_piece-HasEnded :
    (p until now : ℕ) (ps : Pieces) (ws : List Wake)
    → Reaches until now ws
    → HasEnded (read_scheduled_piece p (some until) now ps ws)
unfolding read_scheduled_piece
read_scheduled_piece-HasEnded p until now ps [] h = elim (Option-cases (find p ps)) [
  | inl e ↦ rw (e, read_scheduled_piece, le→leb until now h) refl
  | inr (d, e) ↦ rw (e, read_scheduled_piece) tt
]
read_scheduled_piece-HasEnded p until now ps (w ∷ ws) h =
    let later = read_scheduled_piece-HasEnded p until w.now (apply_events w.events ps) ws in
    elim (Option-cases (find p ps)) [
      | inl e ↦
          rw (e, read_scheduled_piece)
            (elim (Bool-cases (leb until now)) [
              | inl b ↦ rw b refl
              | inr b ↦ rw b (later (ground arith))
            ])
      | inr (d, e) ↦ rw (e, read_scheduled_piece) tt
    ]

-- With a time limit a read of a piece ends once the clock reaches the limit: it has the piece, or it
-- throws that it timed out.
pub read_piece-HasEnded :
    (p until now : ℕ) (ps : Pieces) (start : Wake) (ws : List Wake)
    → Reaches until start.now ws
    → HasEnded (read_piece p (some until) now ps start ws).1
unfolding read_piece
read_piece-HasEnded p until now ps start ws h = elim (Option-cases (find p ps)) [
  | inl e ↦
      rw (e, read_piece)
        (read_scheduled_piece-HasEnded p until start.now (apply_events start.events ps) ws h)
  | inr (d, e) ↦ rw (e, read_piece) tt
]
