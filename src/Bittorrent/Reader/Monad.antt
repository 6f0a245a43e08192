-- ===== src/Bittorrent/Reader/Monad.antt =====
-- The state of a read and how it can end: src/bittorrent/reader.cpp, `Reader::read`. What the torrent
-- and its other threads do during the call is an argument.
use torrest_cpp.Prelude.{ℕ, ◌+◌, Option, none, some, List, ◌++◌}
use torrest_cpp.Bittorrent.Handle.{HandleCall}
use torrest_cpp.Bittorrent.Exceptions.{Exception, piece}
use torrest_cpp.Bittorrent.Pieces.{
  PieceData, Pieces, CacheEvent, apply_events, Wake, Reading, got, threw, waiting, read_piece,
}
use torrest_cpp.Bittorrent.Wait.{Poll, Waited, arrived, failed, polling, wait_for_piece}

-- What happens around the read of one piece: before it begins, up to its wait, and in its wait.
pub record Fetch : Type 0 where
  pub before : List CacheEvent
  pub now : ℕ
  pub start : Wake
  pub wakes : List Wake

pub record Env : Type 0 where
  pub now : ℕ
  pub polls : ℕ → List Poll
  pub fetches : ℕ → Fetch

pub record ReadState : Type 0 where
  pub pieces : Pieces
  pub calls : List HandleCall
  pub position : ℕ

-- `blocked` if the call is still waiting when the events of the environment end.
pub data Outcome (A : Type 0) : Type 0 where
  returned : A → Outcome A
  raised : Exception → Outcome A
  blocked : Outcome A

abbrev pub M : Type 0 → Type 0
M A = ReadState → Outcome A × ReadState

infixl 5 ◌>>=◌ ◌>>◌
abbrev pub continue : {A B : Type 0} → (A → M B) → Outcome A × ReadState → Outcome B × ReadState
continue f (returned a, s) = f a s
continue f (raised e, s) = (raised e, s)
continue f (blocked, s) = (blocked, s)

abbrev pub ◌>>=◌ : {A B : Type 0} → M A → (A → M B) → M B
◌>>=◌ m f s = continue f (m s)

abbrev pub ◌>>◌ : {B : Type 0} → M (Unit {0}) → M B → M B
m >> k = m >>= λ _. k

abbrev pub pure : {A : Type 0} → A → M A
pure a s = (returned a, s)

abbrev pub raise : {A : Type 0} → Exception → M A
raise e s = (raised e, s)

abbrev pub emit : List HandleCall → M (Unit {0})
emit cs s = (returned tt, record s { calls = s.calls ++ cs })

-- `mPos += n`
abbrev pub advance : ℕ → M (Unit {0})
advance n s = (returned tt, record s { position = s.position + n })

unfoldable pub waited : Waited → M (Unit {0})
waited arrived s = (returned tt, s)
waited (failed e) s = (raised (piece e), s)
waited polling s = (blocked, s)

-- `mTorrent->wait_for_piece(p, pieceWaitUntil)`
unfoldable pub wait : Env → Option ℕ → ℕ → M (Unit {0})
unfolding waited
wait env until p = waited (wait_for_piece until (env.polls p))

unfoldable pub read_of : List HandleCall → Reading → ReadState → Outcome PieceData × ReadState
read_of cs (got d ps) s = (returned d, record s { pieces = ps; calls = s.calls ++ cs })
read_of cs (threw e ps) s = (raised (piece e), record s { pieces = ps; calls = s.calls ++ cs })
read_of cs (waiting ps) s = (blocked, record s { pieces = ps; calls = s.calls ++ cs })

-- `mTorrent->read_piece(p, pieceWaitUntil)`
unfoldable pub fetch : Env → Option ℕ → ℕ → M PieceData
unfolding read_of
fetch env until p s =
    let f = env.fetches p in
    let (cs, r) = read_piece p until f.now (apply_events f.before s.pieces) f.start f.wakes in
    read_of cs r s

-- A property of the ways to end: `P` of a value, `E` of an exception, or of none where it is blocked,
-- and `I` of the state.
abbrev pub Post :
    {A : Type 0}
    → (A → Type 0)
    → (Option Exception → Type 0)
    → (ReadState → Type 0)
    → Outcome A × ReadState
    → Type 0
Post P E I (returned a, s) = P a × I s
Post P E I (raised e, s) = E (some e) × I s
Post P E I (blocked, s) = E none × I s

module _ {A B : Type 0} (P : A → Type 0) (Q : B → Type 0) (E : Option Exception → Type 0)
    (I : ReadState → Type 0) where
  -- The rule for a sequence.
  pub Post->>= :
      (m : M A) (f : A → M B) (s : ReadState)
      → Post P E I (m s)
      → ((a : A) (t : ReadState) → P a → I t → Post Q E I (f a t))
      → Post Q E I ((m >>= f) s)
  Post->>= m f s h k = go (m s) h
    where
      go : (r : Outcome A × ReadState) → Post P E I r → Post Q E I (continue f r)
      go (returned a, t) g = k a t g.0 g.1
      go (raised e, t) g = g
      go (blocked, t) g = g
