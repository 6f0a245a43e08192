-- ===== src/Bittorrent/Pieces/Supply.antt =====
-- A read of a piece that is stored while it waits returns.
use torrest_cpp.Prelude.{
  ℕ, ◌<◌, ◌≡◌, refl, sym, subst, ◌∙◌, ◌⊎◌, inl, inr, false, Option, none, some, List, [], ◌∷◌, ◌++◌,
  arith, ◌==◌, Bool-cases, Option-cases, Bytes,
}
use torrest_cpp.Bittorrent.Pieces.Laws.{find-insert, find-insert_self}
use torrest_cpp.Bittorrent.Pieces.{
  PieceData, Pieces, find, insert, store_piece, CacheEvent, store, cleanup, apply_event,
  apply_events, Wake, Reading, got, touched, has_passed, read_scheduled_piece, read_piece,
}

abbrev pub AllStores : List CacheEvent → Type 0
AllStores [] = Unit {0}
AllStores (store p size buffer now ∷ es) = AllStores es
AllStores (cleanup expiration now ∷ es) = ⊥

-- Among the events is a store of the piece, and no cleanup behind it.
abbrev pub IsStored : ℕ → List CacheEvent → Type 0
IsStored p events =
    (es : List CacheEvent) × (size : ℕ) × (buffer : Bytes) × (now : ℕ) × (later : List CacheEvent)
    × (events ≡ es ++ store p size buffer now ∷ later)
    × AllStores later

abbrev pub IsEarly : Option ℕ → ℕ → Type 0
IsEarly none now = Unit {0}
IsEarly (some until) now = now < until

-- The piece is stored before the round at `now`, or in one of the waits behind it, none of which begins
-- at the time limit or later.
abbrev pub StoredInTime : ℕ → Option ℕ → List CacheEvent → ℕ → List Wake → Type 0
StoredInTime p until events now [] = IsStored p events
StoredInTime p until events now (w ∷ ws) =
    IsStored p events ⊎ (IsEarly until now × StoredInTime p until w.events w.now ws)

apply_events-append :
    (es fs : List CacheEvent) (ps : Pieces)
    → apply_events (es ++ fs) ps ≡ apply_events fs (apply_events es ps)
unfolding apply_events
apply_events-append [] fs ps = refl
apply_events-append (e ∷ es) fs ps = apply_events-append es fs (apply_event e ps)

abbrev IsFound : ℕ → Pieces → Type 0
IsFound p ps = (d : PieceData) × (find p ps ≡ some d)

insert-IsFound : (p q : ℕ) (d : PieceData) (ps : Pieces) → IsFound p ps → IsFound p (insert q d ps)
insert-IsFound p q d ps (x, e) = elim (Bool-cases (q == p)) [
  | inl same ↦ (d, find-insert q p d ps ∙ rw same refl)
  | inr other ↦ (x, find-insert q p d ps ∙ rw other e)
]

stores-IsFound :
    (p : ℕ) (es : List CacheEvent) (ps : Pieces)
    → AllStores es
    → IsFound p ps
    → IsFound p (apply_events es ps)
unfolding apply_events apply_event store_piece
stores-IsFound p [] ps all k = k
stores-IsFound p (store q size buffer now ∷ es) ps all k =
    stores-IsFound p es _ all (insert-IsFound p q _ ps k)
stores-IsFound p (cleanup expiration now ∷ es) ps all k = absurd all

insert_self-IsFound : (p : ℕ) (d : PieceData) (ps : Pieces) → IsFound p (insert p d ps)
insert_self-IsFound p d ps = (d, find-insert_self p d ps)

IsStored-IsFound :
    (p : ℕ) (events : List CacheEvent) (ps : Pieces)
    → IsStored p events
    → IsFound p (apply_events events ps)
unfolding apply_events apply_event store_piece
IsStored-IsFound p events ps (es, size, buffer, now, later, e, all) =
    subst (λ x. IsFound p (apply_events x ps)) (sym e)
      (subst (IsFound p) (sym (apply_events-append es (store p size buffer now ∷ later) ps))
        (stores-IsFound p later _ all (insert_self-IsFound p _ (apply_events es ps))))

abbrev IsGot : Reading → Type 0
IsGot x = (d : PieceData) × (qs : Pieces) × (x ≡ got d qs)

scheduled_found :
    (p : ℕ) (until : Option ℕ) (now : ℕ) (ps : Pieces) (ws : List Wake)
    → IsFound p ps
    → IsGot (read_scheduled_piece p until now ps ws)
unfolding read_scheduled_piece
scheduled_found p until now ps [] (d, e) =
    (touched d now, insert p (touched d now) ps, rw (e, read_scheduled_piece) refl)
scheduled_found p until now ps (w ∷ ws) (d, e) =
    (touched d now, insert p (touched d now) ps, rw (e, read_scheduled_piece) refl)

has_passed_early : (until : Option ℕ) (now : ℕ) → IsEarly until now → has_passed until now ≡ false
has_passed_early none now early = refl
has_passed_early (some until) now early = ground arith

-- A round that does not find the piece waits, if it is early, and looks again.
looks_again :
    (p : ℕ) (until : Option ℕ) (now : ℕ) (ps : Pieces) (w : Wake) (ws : List Wake)
    → IsEarly until now
    → IsGot (read_scheduled_piece p until w.now (apply_events w.events ps) ws)
    → IsGot (read_scheduled_piece p until now ps (w ∷ ws))
unfolding read_scheduled_piece
looks_again p until now ps w ws early later = elim (Option-cases (find p ps)) [
  | inr (d, hit) ↦ scheduled_found p until now ps (w ∷ ws) (d, hit)
  | inl miss ↦
      let (d, qs, e) = later in
      (d, qs, rw (miss, read_scheduled_piece, has_passed_early until now early) e)
]

read_scheduled_piece-stored :
    (p : ℕ) (until : Option ℕ) (events : List CacheEvent) (now : ℕ) (ps : Pieces) (ws : List Wake)
    → StoredInTime p until events now ws
    → IsGot (read_scheduled_piece p until now (apply_events events ps) ws)
read_scheduled_piece-stored p until events now ps [] s =
    scheduled_found p until now (apply_events events ps) [] (IsStored-IsFound p events ps s)
read_scheduled_piece-stored p until events now ps (w ∷ ws) (inl s) =
    scheduled_found p until now (apply_events events ps) (w ∷ ws) (IsStored-IsFound p events ps s)
read_scheduled_piece-stored p until events now ps (w ∷ ws) (inr (early, s)) =
    looks_again p until now (apply_events events ps) w ws early
      (read_scheduled_piece-stored p until w.events w.now (apply_events events ps) ws s)

-- A read of a piece that is stored in time returns.
pub read_piece-stored :
    (p : ℕ) (until : Option ℕ) (now : ℕ) (ps : Pieces) (start : Wake) (ws : List Wake)
    → StoredInTime p until start.events start.now ws
    → (d : PieceData) × (qs : Pieces) × ((read_piece p until now ps start ws).1 ≡ got d qs)
unfolding read_piece
read_piece-stored p until now ps start ws s = elim (Option-cases (find p ps)) [
  | inr (d, hit) ↦ (touched d now, insert p (touched d now) ps, rw (hit, read_piece) refl)
  | inl miss ↦
      let (d, qs, e) = read_scheduled_piece-stored p until start.events start.now ps ws s in
      (d, qs, rw (miss, read_piece) e)
]
