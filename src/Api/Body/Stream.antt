-- ===== src/Api/Body/Stream.antt =====
-- A stream gives the bytes of its range: reading it refines reading from the list of the bytes left.
use torrest_cpp.Prelude.{
  ℕ, ◌+◌, ◌-◌, ◌≤◌, min, ◌≡◌, refl, sym, ap, ◌∙◌, ◌≢◌, inl, inr, false, List, [], ◌∷◌, arith,
  if◌then◌else◌, Bool-cases, length, take, drop, slice, length-slice, Bytes,
}
use torrest_cpp.Prelude.Int.{ℤ, pos, negsuc, pos_part, ◌-ℤ◌, ltb_ℤ}
use torrest_cpp.Prelude.{take-take-min, drop-slice}
use torrest_cpp.Bittorrent.Handle.{Handle, HandleCall}
use torrest_cpp.Bittorrent.Exceptions.{out_of_bounds}
use torrest_cpp.Bittorrent.Pieces.Waiting.{IsFaithful}
use torrest_cpp.Bittorrent.Reader.{Reader, read_size}
use torrest_cpp.Bittorrent.Reader.Monad.{Env, ReadState, Outcome, returned, raised, blocked}
use torrest_cpp.Bittorrent.Reader.Read.{Reads, IsOwn, IsTruthful, read_lem}
use torrest_cpp.Bittorrent.Reader.Window.{piece_bytes, IsValid}
use torrest_cpp.Api.Body.{RangeInputStream, behind, settle, desired_amount, read_stream}

-- The reader is valid and the cache holds true bytes.
abbrev pub StreamValid : Bytes → RangeInputStream → Type 0
StreamValid total s =
    IsValid total s.reader × IsFaithful (piece_bytes total s.reader.piece_length) s.pieces

-- How many bytes are left: of the range, and of the file.
abbrev pub left_of : RangeInputStream → ℕ
left_of s = min (pos_part s.size - s.position) (s.reader.size - s.reader.pos)

abbrev pub remaining : Bytes → RangeInputStream → Bytes
remaining total s = slice (s.reader.offset + s.reader.pos) (left_of s) total

-- How a read of at most `n` bytes may end.
abbrev pub Delivers :
    Bytes → RangeInputStream → ℕ → Outcome Bytes × RangeInputStream × List HandleCall → Type 0
Delivers total s n (returned out, s2, cs) =
    (out ≡ take n (remaining total s))
    × (remaining total s2 ≡ drop n (remaining total s))
    × StreamValid total s2
Delivers total s n (raised e, s2, cs) =
    (e ≢ out_of_bounds) × (remaining total s2 ≡ remaining total s) × StreamValid total s2
Delivers total s n (blocked, s2, cs) =
    (remaining total s2 ≡ remaining total s) × StreamValid total s2

pos_part-sub : (z : ℤ) (n : ℕ) → pos_part (z -ℤ pos n) ≡ pos_part z - n
unfolding ◌-ℤ◌
pos_part-sub z n = ground arith

pos_part-min : (a b : ℤ) → pos_part (if ltb_ℤ a b then a else b) ≡ min (pos_part b) (pos_part a)
pos_part-min (pos a) (pos b) = ground arith
pos_part-min (pos a) (negsuc b) = ground arith
pos_part-min (negsuc a) (pos b) = ground arith
pos_part-min (negsuc a) (negsuc b) = ground arith

desired_lem :
    (s : RangeInputStream) (count : ℤ)
    → pos_part (desired_amount s count) ≡ min (pos_part count) (pos_part s.size - s.position)
unfolding desired_amount
desired_lem s count =
    let e = pos_part-min (s.size -ℤ pos s.position) count in
    let f = pos_part-sub s.size s.position in omega (arith, e, f)

pub moved-IsValid :
    (total : Bytes) (r : Reader) (p : ℕ)
    → IsValid total r
    → p ≤ r.size
    → IsValid total (record r { pos = p })
moved-IsValid total r p v le = record {
  piece_length_pos = v.piece_length_pos;
  piece_length_int = v.piece_length_int;
  within = v.within;
  pos_within = le;
  pieces_int = v.pieces_int;
}

kept :
    (total : Bytes) (s : RangeInputStream) (t : ReadState)
    → StreamValid total s
    → IsFaithful (piece_bytes total s.reader.piece_length) t.pieces
    → t.position ≡ s.reader.pos
    → (remaining total (behind s t 0) ≡ remaining total s) × StreamValid total (behind s t 0)
kept total s t v f at =
    let inside = v.0.pos_within in
    let e1 : s.reader.offset + t.position ≡ s.reader.offset + s.reader.pos = omega arith in
    let e2 : left_of (behind s t 0) ≡ left_of s = omega arith in
    (
      (λ i. slice (e1 i) (e2 i) total),
      (moved-IsValid total s.reader t.position v.0 (omega arith), f),
    )

settle-Delivers :
    (total : Bytes) (s : RangeInputStream) (count : ℤ) (x : Outcome Bytes × ReadState)
    → StreamValid total s
    → Reads total s.reader IsOwn
        (IsFaithful (piece_bytes total s.reader.piece_length))
        (min (pos_part count) (left_of s))
        x
    → Delivers total s (pos_part count) (settle s x)
unfolding settle
settle-Delivers total s count (returned out, t) v h =
    let r = s.reader in
    let c = pos_part count in
    let m = left_of s in
    let within = v.0.within in
    let inside = v.0.pos_within in
    let len : length out ≡ min c m =
      ap length h.0 ∙ length-slice (r.offset + r.pos) (min c m) total (omega arith) in
    let at = h.2 in
    let e1 : r.offset + t.position ≡ r.offset + r.pos + min c m = omega arith in
    let e2 : left_of (behind s t (length out)) ≡ m - min c m = omega arith in
    (
      h.0 ∙ sym (take-take-min c m (drop (r.offset + r.pos) total)),
      (λ i. slice (e1 i) (e2 i) total) ∙ sym (drop-slice c (r.offset + r.pos) m total),
      (moved-IsValid total r t.position v.0 (omega arith), h.1),
    )
settle-Delivers total s count (raised e, t) v h =
    let (same, valid) = kept total s t v h.1 h.2 in (h.0, same, valid)
settle-Delivers total s count (blocked, t) v h = kept total s t v h.1 h.2

pos_part-none : (d : ℤ) → ltb_ℤ (pos 0) d ≡ false → pos_part d ≡ 0
pos_part-none (pos n) e = ground arith
pos_part-none (negsuc n) e = refl

read_size_lem : (r : Reader) (n : ℤ) → read_size r n ≡ min (pos_part n) (r.size - r.pos)
unfolding read_size
read_size_lem r n = refl

-- A read of a stream writes the next bytes of its range, at most as many as there is room for and none
-- behind the end of the range or of the file, and leaves the others for later reads; one that throws
-- or still waits loses nothing. The reader is valid, and the cache and the alerts hold true bytes.
pub read_stream-Delivers :
    (total : Bytes) (h : Handle) (env : Env) (s : RangeInputStream) (count : ℤ)
    → StreamValid total s
    → IsTruthful (piece_bytes total s.reader.piece_length) env
    → Delivers total s (pos_part count) (read_stream h env s count)
unfolding read_stream
read_stream-Delivers total h env s count v t =
    let start : ReadState = record { pieces = s.pieces; calls = []; position = s.reader.pos } in
    let desired = desired_amount s count in
    let amount : read_size s.reader desired ≡ min (pos_part count) (left_of s) =
      read_size_lem s.reader desired ∙ omega (arith, desired_lem s count) in
    let reads = read_lem total h env s.reader desired start v.0 t v.1 refl in
    elim (Bool-cases (ltb_ℤ (pos 0) desired)) [
      | inl some_left ↦ rw some_left (settle-Delivers total s count _ v (rw amount at reads))
      | inr none_left ↦
          let z : min (pos_part count) (left_of s) ≡ 0 =
            omega (arith, desired_lem s count, pos_part-none desired none_left) in
          let a = s.reader.offset + s.reader.pos in
          let m = left_of s in
          let none_out : [] ≡ take (min (pos_part count) m) (drop a total) = rw z refl in
          let e1 : a + min (pos_part count) m ≡ a = omega arith in
          let e2 : m - min (pos_part count) m ≡ m = omega arith in
          rw none_left (
            none_out ∙ sym (take-take-min (pos_part count) m (drop a total)),
            (λ i. slice (sym e1 i) (sym e2 i) total) ∙ sym (drop-slice (pos_part count) a m total),
            v,
          )
    ]

-- Reads that returned, one behind another, each in an environment of its own.
pub data Drained (total : Bytes) (h : Handle)
    : RangeInputStream → List ℤ → List Bytes → RangeInputStream → Type 0 where
  done : (s : RangeInputStream) → Drained total h s [] [] s
  next :
      {s s2 s3 : RangeInputStream} {counts : List ℤ} {outs : List Bytes} {cs : List HandleCall}
      (env : Env) (count : ℤ) (out : Bytes)
      → IsTruthful (piece_bytes total s.reader.piece_length) env
      → read_stream h env s count ≡ (returned out, s2, cs)
      → Drained total h s2 counts outs s3
      → Drained total h s (count ∷ counts) (out ∷ outs) s3

-- The same reads from a list of bytes.
abbrev pub chunks : List ℤ → Bytes → List Bytes
chunks [] bs = []
chunks (count ∷ counts) bs = take (pos_part count) bs ∷ chunks counts (drop (pos_part count) bs)
