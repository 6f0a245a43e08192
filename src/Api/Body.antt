-- ===== src/Api/Body.antt =====
-- The bodies of answers: src/api/mime/multipart.cpp and src/api/body. oatpp calls `read` on them with
-- the room that it has, each time in an environment of its own.
pub mod Stream
pub mod Served
mod Tests
use torrest_cpp.Prelude.{ℕ, ◌+◌, ◌-◌, List, [], if◌then◌else◌, length, Bytes}
use torrest_cpp.Prelude.Int.{ℤ, pos, negsuc, ◌-ℤ◌, ltb_ℤ}
use torrest_cpp.Prelude.{Result, ok, err}
use torrest_cpp.Bittorrent.Handle.{Handle, HandleCall}
use torrest_cpp.Bittorrent.Pieces.{Pieces}
use torrest_cpp.Bittorrent.File.{File}
use torrest_cpp.Bittorrent.Reader.{Reader, beg, make_reader, seek, read}
use torrest_cpp.Bittorrent.Reader.Monad.{Env, ReadState, Outcome, returned, raised, blocked}

-- `RangeInputStream`, whose reader has its own position, and the pieces of the torrent.
pub record RangeInputStream : Type 0 where
  pub reader : Reader
  pub size : ℤ
  pub position : ℕ
  pub pieces : Pieces

-- The stream behind a read of its reader that wrote `n` bytes.
abbrev pub behind : RangeInputStream → ReadState → ℕ → RangeInputStream
behind s t n = record s {
  reader = record s.reader { pos = t.position };
  position = s.position + n;
  pieces = t.pieces;
}

settle :
    RangeInputStream
    → Outcome Bytes × ReadState
    → Outcome Bytes × RangeInputStream × List HandleCall
settle s (returned out, t) = (returned out, behind s t (length out), t.calls)
settle s (raised e, t) = (raised e, behind s t 0, t.calls)
settle s (blocked, t) = (blocked, behind s t 0, t.calls)

-- `std::min(count, mSize - mPosition)`
pub desired_amount : RangeInputStream → ℤ → ℤ
desired_amount s count =
    let left : ℤ = s.size -ℤ pos s.position in if ltb_ℤ left count then left else count

-- `RangeInputStream::read`
pub read_stream :
    Handle → Env → RangeInputStream → ℤ → Outcome Bytes × RangeInputStream × List HandleCall
unfolding desired_amount settle
read_stream h env s count =
    let desired : ℤ = desired_amount s count in
    let start : ReadState = record { pieces = s.pieces; calls = []; position = s.reader.pos } in
    let rest = settle s (read h env s.reader desired start) in
    if ltb_ℤ (pos 0) desired then rest else (returned [], s, [])

-- `range_parser::Range`, as far as it is read.
pub record Range : Type 0 where
  pub start : ℤ
  pub length : ℤ

-- `File::reader`: `p_pieces` is the read-ahead in pieces, `timeout` the setting.
unfoldable pub file_reader : ℕ → ℕ → File → Reader
file_reader p_pieces timeout f = make_reader f.offset f.size f.piece_length p_pieces timeout

-- `throw std::runtime_error("Invalid range start")`
pub data InvalidRange : Type 0 where
  invalid_range_start : InvalidRange

opened :
    Range
    → Pieces
    → ℤ × Reader × List HandleCall
    → Result InvalidRange (RangeInputStream × List HandleCall)
opened range ps (negsuc n, r, cs) = err invalid_range_start
opened range ps (pos n, r, cs) =
    ok (record { reader = r; size = range.length; position = 0; pieces = ps }, cs)

-- `RangeResource::openInputStream`
pub open_input_stream :
    Handle
    → ℕ
    → ℕ
    → File
    → Range
    → Pieces
    → Result InvalidRange (RangeInputStream × List HandleCall)
unfolding opened file_reader
open_input_stream h p_pieces timeout f range ps =
    opened range ps (seek h (file_reader p_pieces timeout f) range.start beg)
