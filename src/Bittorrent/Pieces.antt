-- ===== src/Bittorrent/Pieces.antt =====
-- The cache of read pieces of a torrent, `mPieces`: src/bittorrent/torrent.cpp, `store_piece` to
-- `read_piece`. Times are readings of the steady clock. What the other threads do to the cache while
-- the reader waits is a list of events for each time that it wakes.
pub mod Laws
pub mod Waiting
pub mod Supply
pub mod Refresh
use torrest_cpp.Prelude.{
  ℕ, ◌+◌, Bool, false, Option, none, some, List, [], ◌∷◌, leb, ◌==◌, if◌then◌else◌, Bytes,
}
use torrest_cpp.Bittorrent.Handle.{HandleCall, request_piece}
use torrest_cpp.Bittorrent.Exceptions.{PieceFailure, timed_out_waiting}

pub record PieceData : Type 0 where
  pub size : ℕ
  pub buffer : Bytes
  pub read_at : ℕ

abbrev pub Pieces : Type 0
Pieces = List (ℕ × PieceData)

-- `mPieces.find(pPiece)`
unfoldable pub find : ℕ → Pieces → Option PieceData
find p [] = none
find p ((q, d) ∷ ps) = if q == p then some d else find p ps

-- `mPieces[pPiece] = pData`
pub insert : ℕ → PieceData → Pieces → Pieces
insert p d [] = (p, d) ∷ []
insert p d ((q, e) ∷ ps) = if q == p then (p, d) ∷ ps else (q, e) ∷ insert p d ps

unfoldable pub store_piece : ℕ → ℕ → Bytes → ℕ → Pieces → Pieces
store_piece p size buffer now ps =
    insert p (record { size = size; buffer = buffer; read_at = now }) ps

-- `now - read_at >= expiration`, with no difference that could be negative.
abbrev pub is_expired : ℕ → ℕ → PieceData → Bool
is_expired expiration now d = leb (d.read_at + expiration) now

pub cleanup_pieces : ℕ → ℕ → Pieces → Pieces
cleanup_pieces expiration now [] = []
cleanup_pieces expiration now ((p, d) ∷ ps) =
    let rest = cleanup_pieces expiration now ps in
    if is_expired expiration now d then rest else (p, d) ∷ rest

-- What another thread does to the cache: the handler of alerts stores, the cleanup handler removes.
pub data CacheEvent : Type 0 where
  store : ℕ → ℕ → Bytes → ℕ → CacheEvent
  cleanup : ℕ → ℕ → CacheEvent

pub apply_event : CacheEvent → Pieces → Pieces
unfolding store_piece
apply_event (store p size buffer now) ps = store_piece p size buffer now ps
apply_event (cleanup expiration now) ps = cleanup_pieces expiration now ps

pub apply_events : List CacheEvent → Pieces → Pieces
unfolding apply_event
apply_events [] ps = ps
apply_events (e ∷ es) ps = apply_events es (apply_event e ps)

-- One return from the wait on `mPiecesCv`: what was done meanwhile, and the time of the next round.
pub record Wake : Type 0 where
  pub events : List CacheEvent
  pub now : ℕ

-- How a read of a piece ends; `waiting` if the given wakes do not suffice.
pub data Reading : Type 0 where
  got : PieceData → Pieces → Reading
  threw : PieceFailure → Pieces → Reading
  waiting : Pieces → Reading

-- `it->second.read_at = now`, for the entry `d` that was found.
abbrev pub touched : PieceData → ℕ → PieceData
touched d now = record d { read_at = now }

abbrev pub has_passed : Option ℕ → ℕ → Bool
has_passed none now = false
has_passed (some until) now = leb until now

-- The `while` loop of `read_scheduled_piece`, one round for the start and one for each wake.
pub read_scheduled_piece : ℕ → Option ℕ → ℕ → Pieces → List Wake → Reading
read_scheduled_piece p until now ps [] = elim (find p ps) [
  | some d ↦ got (touched d now) (insert p (touched d now) ps)
  | none ↦ if has_passed until now then threw timed_out_waiting ps else waiting ps
]
read_scheduled_piece p until now ps (w ∷ ws) = elim (find p ps) [
  | some d ↦ got (touched d now) (insert p (touched d now) ps)
  | none ↦
      if has_passed until now
      then threw timed_out_waiting ps
      else read_scheduled_piece p until w.now (apply_events w.events ps) ws
]

-- `mHandle.read_piece(pPiece)`: the piece comes later, by an alert.
abbrev pub schedule_read_piece : ℕ → List HandleCall
schedule_read_piece p = request_piece p ∷ []

-- `Torrent::read_piece`: `start` is what happens from the first look into the cache to the first
-- round of the wait.
pub read_piece : ℕ → Option ℕ → ℕ → Pieces → Wake → List Wake → List HandleCall × Reading
unfolding read_scheduled_piece
read_piece p until now ps start wakes = elim (find p ps) [
  | some d ↦ ([], got (touched d now) (insert p (touched d now) ps))
  | none ↦ (
    schedule_read_piece p,
    read_scheduled_piece p until start.now (apply_events start.events ps) wakes,
  )
]
