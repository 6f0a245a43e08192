-- ===== src/Api/Body/Served.antt =====
-- A range of a file, from the opening of its stream to its last read.
use torrest_cpp.Prelude.{
  ℕ, ◌+◌, ◌-◌, ◌≤◌, min, ◌≡◌, refl, ap, subst, ◌∙◌, inl, inr, List, [], ◌∷◌, ◌++◌, arith,
  Bool-cases, length, take, drop, slice, Bytes,
}
use torrest_cpp.Prelude.Int.{ℤ, pos, pos_part, ltb_ℤ}
use torrest_cpp.Prelude.{ok}
use torrest_cpp.Prelude.{take-append-take-drop}
use torrest_cpp.Bittorrent.Handle.{Handle, HandleCall}
use torrest_cpp.Bittorrent.File.{File}
use torrest_cpp.Bittorrent.Pieces.{Pieces}
use torrest_cpp.Bittorrent.Pieces.Waiting.{IsFaithful}
use torrest_cpp.Bittorrent.Reader.{
  Reader, beg, read_size, set_pieces_priorities, piece_from_offset, target, make_reader,
}
use torrest_cpp.Bittorrent.Reader.Monad.{Env, ReadState, returned}
use torrest_cpp.Bittorrent.Reader.Read.{IsTruthful, IsSupplied, until_of, read_returns}
use torrest_cpp.Bittorrent.Reader.Seek.{Seeks, moved, refused, seek-Seeks}
use torrest_cpp.Bittorrent.Reader.Window.{piece_bytes, IsValid}
use torrest_cpp.Api.Body.{
  RangeInputStream, behind, settle, desired_amount, read_stream, Range, file_reader, opened,
  open_input_stream,
}
use torrest_cpp.Api.Body.Stream.{
  StreamValid, left_of, remaining, Delivers, Drained, done, next, read_stream-Delivers,
  moved-IsValid,
}

-- The same reads from a list of bytes.
abbrev pub chunks : List ℤ → Bytes → List Bytes
chunks [] bs = []
chunks (count ∷ counts) bs = take (pos_part count) bs ∷ chunks counts (drop (pos_part count) bs)

abbrev pub joined : List Bytes → Bytes
joined [] = []
joined (b ∷ bs) = b ++ joined bs

abbrev pub room : List ℤ → ℕ
room [] = 0
room (count ∷ counts) = pos_part count + room counts

joined-chunks : (counts : List ℤ) (bs : Bytes) → joined (chunks counts bs) ≡ take (room counts) bs
joined-chunks [] bs = refl
joined-chunks (count ∷ counts) bs =
    rw (joined-chunks counts (drop (pos_part count) bs))
      (take-append-take-drop (pos_part count) (room counts) bs)

Drained-chunks :
    {total : Bytes} {h : Handle} {s s2 : RangeInputStream} {counts : List ℤ} {outs : List Bytes}
    → StreamValid total s
    → Drained total h s counts outs s2
    → outs ≡ chunks counts (remaining total s)
Drained-chunks v (done s) = refl
Drained-chunks {total} {h} {s} v (next {counts = counts} env count out t eq rest) =
    let step =
      subst (Delivers total s (pos_part count)) eq (read_stream-Delivers total h env s count v t) in
    let later = Drained-chunks step.2 rest ∙ ap (chunks counts) step.1 in λ i. step.0 i ∷ later i

-- The reads of a stream, with the environments that they run in.
abbrev pub Supplied : Bytes → Reader → List (Env × ℤ) → Type 0
Supplied total r [] = Unit {0}
Supplied total r ((env, count) ∷ es) =
    (IsTruthful (piece_bytes total r.piece_length) env × IsSupplied (until_of env r) env)
    × Supplied total r es

abbrev pub counts_of : List (Env × ℤ) → List ℤ
counts_of [] = []
counts_of ((env, count) ∷ es) = count ∷ counts_of es

read_stream_returns :
    (total : Bytes) (h : Handle) (env : Env) (s : RangeInputStream) (count : ℤ)
    → StreamValid total s
    → IsTruthful (piece_bytes total s.reader.piece_length) env
    → IsSupplied (until_of env s.reader) env
    → (out : Bytes) × (t : ReadState) × (n : ℕ) × (cs : List HandleCall) × (read_stream h env s
          count
        ≡ (returned out, behind s t n, cs))
unfolding read_stream settle
read_stream_returns total h env s count v t u =
    let start : ReadState = record { pieces = s.pieces; calls = []; position = s.reader.pos } in
    let desired = desired_amount s count in
    elim (Bool-cases (ltb_ℤ (pos 0) desired)) [
      | inl some_left ↦
          let (x, eq, at) = read_returns total h env s.reader desired start v.0 t v.1 u refl in
          let out = slice (s.reader.offset + s.reader.pos) (read_size s.reader desired) total in
          (out, x, length out, x.calls, rw (some_left, eq) refl)
      | inr none_left ↦ (
        [],
        start,
        0,
        [],
        rw none_left (λ i. (
          returned [],
          record s { position = (let e : s.position ≡ s.position + 0 = omega arith in e) i },
          [],
        )),
      )
    ]

Supplied-moved :
    (total : Bytes) (r : Reader) (p : ℕ) (es : List (Env × ℤ))
    → Supplied total r es
    → Supplied total (record r { pos = p }) es
Supplied-moved total r p [] u = tt
Supplied-moved total r p ((env, count) ∷ es) u = (u.0, Supplied-moved total r p es u.1)

Drains :
    (total : Bytes) (h : Handle) (s : RangeInputStream) (es : List (Env × ℤ))
    → StreamValid total s
    → Supplied total s.reader es
    → (outs : List Bytes) × (s2 : RangeInputStream) × Drained total h s (counts_of es) outs s2
Drains total h s [] v u = ([], s, done s)
Drains total h s ((env, count) ∷ es) v u =
    let (out, t, n, cs, eq) = read_stream_returns total h env s count v u.0.0 u.0.1 in
    let step =
      subst (Delivers total s (pos_part count)) eq
        (read_stream-Delivers total h env s count v u.0.0) in
    let (outs, s2, rest) =
      Drains total h (behind s t n) es step.2 (Supplied-moved total s.reader t.position es u.1) in
    (out ∷ outs, s2, next env count out u.0.0 eq rest)

-- The stream of a range that starts in the file.
opened_at :
    (h : Handle) (range : Range) (ps : Pieces) (r : Reader) (start : ℕ)
    (x : ℤ × Reader × List HandleCall)
    → Seeks h r (pos start) x
    → start ≤ r.size
    → (cs : List HandleCall) × (opened range ps x
        ≡ ok (
          record {
            reader = record r { pos = start };
            size = range.length;
            position = 0;
            pieces = ps;
          },
          cs,
        ))
unfolding opened
opened_at h range ps r start x (moved off e le) inside =
    let same : off ≡ start = cc in
    let cs = set_pieces_priorities h r (piece_from_offset r off) 0 in
    (
      cs,
      λ i. ok (
        record {
          reader = record r { pos = same i };
          size = range.length;
          position = 0;
          pieces = ps;
        },
        cs,
      ),
    )
opened_at h range ps r start x (refused out) inside = absurd (out (omega arith, omega arith))

-- If each piece arrives in time and gets into the cache in time, before a read waits for it or while it
-- does, then a range that starts in the file is opened, each of the reads returns, and what they write,
-- in order, is the bytes of the range, cut at the end of the file, as far as there was room for them.
-- The file lies in the torrent, and the cache and the alerts hold the true bytes of its pieces.
pub range_served :
    (total : Bytes) (h : Handle) (p_pieces timeout : ℕ) (f : File) (start : ℕ) (len : ℤ)
    (ps : Pieces) (es : List (Env × ℤ))
    → IsValid total (file_reader p_pieces timeout f)
    → start ≤ f.size
    → IsFaithful (piece_bytes total f.piece_length) ps
    → Supplied total (file_reader p_pieces timeout f) es
    → (s : RangeInputStream) × (cs : List HandleCall) × (outs : List Bytes)
      × (s2 : RangeInputStream) × (open_input_stream h p_pieces timeout f
            (record { start = pos start; length = len })
            ps
          ≡ ok (s, cs))
      × Drained total h s (counts_of es) outs s2
      × (joined outs
          ≡ take
              (room (counts_of es))
              (slice (f.offset + start) (min (pos_part len) (f.size - start)) total))
unfolding open_input_stream target file_reader make_reader
range_served total h p_pieces timeout f start len ps es v inside faithful u =
    let r = file_reader p_pieces timeout f in
    let range : Range = record { start = pos start; length = len } in
    let (cs, eq) = opened_at h range ps r start _ (seek-Seeks h r (pos start) beg) inside in
    let s : RangeInputStream = record {
      reader = record r { pos = start };
      size = len;
      position = 0;
      pieces = ps;
    } in
    let valid : StreamValid total s = (moved-IsValid total r start v inside, faithful) in
    let (outs, s2, drained) = Drains total h s es valid (Supplied-moved total r start es u) in
    let all_left : left_of s ≡ min (pos_part len) (f.size - start) = omega arith in
    let whole : take (room (counts_of es)) (remaining total s)
        ≡ take (room (counts_of es))
            (slice (f.offset + start) (min (pos_part len) (f.size - start)) total) =
      λ i. take (room (counts_of es)) (slice (f.offset + start) (all_left i) total) in
    (
      s,
      cs,
      outs,
      s2,
      eq,
      drained,
      ap joined (Drained-chunks valid drained)
          ∙ joined-chunks (counts_of es) (remaining total s)
          ∙ whole,
    )
