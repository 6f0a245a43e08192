-- ===== src/Bittorrent/Reader.antt =====
-- A reader over one file of a torrent: src/bittorrent/reader.cpp and reader.h, with
-- TORREST_LEGACY_READ_PIECE off. Offsets and sizes are numbers, the requests that can be negative are
-- integers. The torrent and what its other threads do come as arguments (`Env`).
pub mod Monad
pub mod Priorities
pub mod Window
pub mod Seek
pub mod Loops
pub mod Read
pub mod Available
mod Tests
use torrest_cpp.Prelude.{
  ℕ, zero, suc, ◌+◌, ◌-◌, ◌*◌, ◌/◌, ◌%◌, ◌^◌, min, Bool, true, false, Option, none, some, List, [],
  ◌∷◌, ◌++◌, ltb, leb, ◌==◌, if◌then◌else◌, length, slice, Bytes,
}
use torrest_cpp.Prelude.Int.{ℤ, pos, negsuc, pos_part, ◌+ℤ◌}
use torrest_cpp.Bittorrent.Handle.{
  Handle, HandleCall, set_piece_priority, set_piece_deadline, top_priority,
}
use torrest_cpp.Bittorrent.Exceptions.{out_of_bounds}
use Monad.{Env, M, pure, raise, ◌>>=◌, ◌>>◌, emit, wait, fetch, advance}

pub record Reader : Type 0 where
  pub offset : ℕ
  pub size : ℕ
  pub piece_length : ℕ
  pub p_pieces : ℕ
  pub piece_wait_timeout : ℕ
  pub last_piece : ℕ
  pub pos : ℕ

-- `static_cast<std::int32_t>`: the bit pattern, which is the number itself below 2 ^ 31.
abbrev pub to_int32 : ℕ → ℕ
to_int32 n = n % 2 ^ 32

pub piece_from_offset : Reader → ℕ → ℕ
piece_from_offset r off = to_int32 ((r.offset + off) / r.piece_length)

pub piece_offset_from_offset : Reader → ℕ → ℕ
piece_offset_from_offset r off = to_int32 ((r.offset + off) % r.piece_length)

-- The constructor. `p_pieces` is the rounded product of floating-point numbers that the source
-- computes from `pReadAhead`, the size and the piece length.
unfoldable pub make_reader : ℕ → ℕ → ℕ → ℕ → ℕ → Reader
make_reader offset size piece_length p_pieces timeout = record {
  offset = offset;
  size = size;
  piece_length = piece_length;
  p_pieces = p_pieces;
  piece_wait_timeout = timeout;
  last_piece = to_int32 ((offset + size - 1) / piece_length);
  pos = 0;
}

-- `Reader::set_piece_priority`
raise_priority : Handle → ℕ → ℕ → ℕ → List HandleCall
raise_priority h piece deadline priority =
    if ltb (h.piece_priority piece) priority
    then set_piece_priority piece priority ∷ set_piece_deadline piece deadline ∷ []
    else []

-- One round of the loop of `set_pieces_priorities`.
prioritise : Handle → ℕ → ℕ → ℕ → List HandleCall
unfolding raise_priority
prioritise h end_offset i p =
    if h.have_piece p
    then []
    else if leb i end_offset
    then raise_priority h p 0 top_priority
    else raise_priority h p ((i - end_offset) * 10) 6

-- Its loop, by the rounds that are left.
prioritise_from : Handle → ℕ → ℕ → ℕ → ℕ → List HandleCall
unfolding prioritise
prioritise_from h end_offset zero i p = []
prioritise_from h end_offset (suc rounds) i p =
    prioritise h end_offset i p ++ prioritise_from h end_offset rounds (i + 1) (p + 1)

pub set_pieces_priorities : Handle → Reader → ℕ → ℕ → List HandleCall
unfolding prioritise_from
set_pieces_priorities h r piece end_offset =
    let end_piece : ℕ = piece + end_offset + r.p_pieces in
    prioritise_from h end_offset (min end_piece r.last_piece + 1 - piece) 0 piece

pub data Whence : Type 0 where
  beg cur end other : Whence

unfoldable pub target : Reader → ℤ → Whence → ℤ
target r off beg = off
target r off cur = pos r.pos +ℤ off
target r off end = pos r.size +ℤ off
target r off other = negsuc 0

seek_to : Handle → Reader → ℤ → ℤ × Reader × List HandleCall
seek_to h r (negsuc n) = (negsuc 0, r, [])
seek_to h r (pos off) =
    if ltb r.size off
    then (negsuc 0, r, [])
    else (pos off, record r { pos = off }, set_pieces_priorities h r (piece_from_offset r off) 0)

-- `Reader::seek`: the result, the reader and the calls to the torrent.
pub seek : Handle → Reader → ℤ → Whence → ℤ × Reader × List HandleCall
unfolding target seek_to
seek h r off whence = seek_to h r (target r off whence)

-- `std::min(pSize, mSize - mPos)`, and 0 where that is negative.
unfoldable pub read_size : Reader → ℤ → ℕ
read_size r requested = min (pos_part requested) (r.size - r.pos)

have_pieces : Handle → ℕ → ℕ → Bool
have_pieces h zero p = true
have_pieces h (suc rounds) p =
    let rest = have_pieces h rounds (p + 1) in if h.have_piece p then rest else false

pub nowait_read_available : Handle → Reader → ℤ → Bool
unfolding have_pieces read_size
nowait_read_available h r requested =
    let size : ℕ = read_size r requested in
    let start_piece : ℕ = piece_from_offset r r.pos in
    let end_piece : ℕ = piece_from_offset r (r.pos + size - 1) in
    if size == 0 then true else have_pieces h (end_piece + 1 - start_piece) start_piece

-- `memcpy(..., &buffer[off], n)`
copy : Bytes → ℕ → ℕ → M Bytes
copy buffer off n =
    if leb (off + n) (length buffer) then pure (slice off n buffer) else raise out_of_bounds

pub wait_all : Env → Option ℕ → ℕ → ℕ → M (Unit {0})
wait_all env until zero p = pure tt
wait_all env until (suc rounds) p = do wait env until p; wait_all env until rounds (p + 1)

-- The first piece, from the offset on.
pub read_first : Env → Option ℕ → ℕ → ℕ → ℕ → M Bytes
unfolding copy
read_first env until piece off size = do
  d ← fetch env until piece
  if ltb d.size off then raise out_of_bounds else copy d.buffer off (min size (d.size - off))

-- The loop over the other pieces: `out` is what has been written to the buffer, `n` its length.
pub read_rest : Env → Option ℕ → ℕ → ℕ → ℕ → Bytes → M Bytes
unfolding copy
read_rest env until size zero p out = pure out
read_rest env until size (suc rounds) p out = do
  d ← fetch env until p
  chunk ← copy d.buffer 0 (min (size - length out) d.size)
  read_rest env until size rounds (p + 1) (out ++ chunk)

-- The waits and the copies of a read of `size` bytes, more than none.
pub read_pieces : Handle → Env → Reader → ℕ → M Bytes
unfolding wait_all read_first read_rest
read_pieces h env r size =
    let start_piece : ℕ = piece_from_offset r r.pos in
    let end_piece : ℕ = piece_from_offset r (r.pos + size - 1) in
    let until : Option ℕ =
      if ltb 0 r.piece_wait_timeout then some (env.now + r.piece_wait_timeout) else none in
    do
      emit (set_pieces_priorities h r start_piece (end_piece - start_piece))
      wait_all env until (end_piece + 1 - start_piece) start_piece
      first ← read_first env until start_piece (piece_offset_from_offset r r.pos) size
      read_rest env until size (end_piece - start_piece) (start_piece + 1) first

-- `mPos += n; return n;` behind the reads of the pieces.
pub return_bytes : Bytes → M Bytes
return_bytes out = do advance (length out); pure out

-- `Reader::read`: the bytes that it writes to the buffer; its result is their number.
pub read : Handle → Env → Reader → ℤ → M Bytes
unfolding read_size read_pieces return_bytes
read h env r requested =
    let size : ℕ = read_size r requested in
    if size == 0 then pure [] else do out ← read_pieces h env r size; return_bytes out
