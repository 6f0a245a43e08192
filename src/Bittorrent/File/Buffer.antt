-- ===== src/Bittorrent/File/Buffer.antt =====
-- What `File::buffer` asks for.
use torrest_cpp.Prelude.{
  ℕ, zero, suc, ◌+◌, ◌-◌, ◌/◌, ◌≤◌, ◌<◌, ◌≡◌, refl, sym, ap, ◌⊎◌, inl, inr, true, false, some, List,
  [], ◌∷◌, ◌++◌, ◌==◌, append-nil, append_assoc, arith, ltb, if◌then◌else◌, Bool-cases,
}
use torrest_cpp.Prelude.Int.{ℤ, pos_part}
use torrest_cpp.Prelude.{ok}
use torrest_cpp.Prelude.Division.{div_mono}
use torrest_cpp.Bittorrent.Handle.{
  Handle, HandleCall, set_piece_priority, set_piece_deadline, top_priority,
}
use torrest_cpp.Bittorrent.Missing.{contains}
use torrest_cpp.Bittorrent.File.{
  File, add_from, last_piece, rounds, finish_buffer, run_buffer, get_pieces_indexes,
  add_buffer_pieces, add_ranges, cleared, buffer,
}

-- `n` pieces from `p` on.
abbrev pub range : ℕ → ℕ → List ℕ
range zero p = []
range (suc n) p = p ∷ range n (p + 1)

abbrev pub sizes : Handle → List ℕ → ℕ
sizes h [] = 0
sizes h (p ∷ ps) = h.piece_size p + sizes h ps

abbrev extend : Handle → File → List ℕ → File
extend h f ps = record f {
  buffer_size = f.buffer_size + sizes h ps;
  buffer_pieces = f.buffer_pieces ++ ps;
}

abbrev pub requests : List ℕ → List HandleCall
requests [] = []
requests (p ∷ ps) = set_piece_priority p top_priority ∷ set_piece_deadline p 0 ∷ requests ps

add_from_lem :
    (h : Handle) (n p : ℕ) (f : File)
    → add_from h n p f ≡ (extend h f (range n p), requests (range n p))
unfolding add_from
add_from_lem h zero p f = λ i. (
  record f {
    buffer_size = (let e : f.buffer_size ≡ f.buffer_size + 0 = omega arith in e) i;
    buffer_pieces = sym (append-nil f.buffer_pieces) i;
  },
  [],
)
add_from_lem h (suc n) p f =
    rw
      (add_from_lem h n (p + 1) (record f {
        buffer_size = f.buffer_size + h.piece_size p;
        buffer_pieces = f.buffer_pieces ++ p ∷ [];
      }))
      (λ i. (
        record f {
          buffer_size =
              (let e : f.buffer_size + h.piece_size p + sizes h (range n (p + 1))
                      ≡ f.buffer_size + (h.piece_size p + sizes h (range n (p + 1))) =
                    omega arith in
                  e)
                i;
          buffer_pieces = append_assoc f.buffer_pieces (p ∷ []) (range n (p + 1)) i;
        },
        requests (range (suc n) p),
      ))

contains-range : (n p q : ℕ) → p ≤ q → q < p + n → contains (range n p) q ≡ true
contains-range zero p q lo hi = absurd (omega arith)
contains-range (suc n) p q lo hi = ground (arith, contains-range n (p + 1) q)

contains-append :
    (ps qs : List ℕ) (q : ℕ)
    → (contains ps q ≡ true) ⊎ (contains qs q ≡ true)
    → contains (ps ++ qs) q ≡ true
contains-append [] qs q h = ground arith
contains-append (p ∷ ps) qs q h = ground (arith, contains-append ps qs q)

-- The pieces of `len` bytes from `off` on.
abbrev pieces_of : File → ℕ → ℕ → List ℕ
pieces_of f off len =
    let first = (f.offset + off) / f.piece_length in
    range (rounds first (last_piece (f.offset + off + len) f.piece_length)) first

-- The piece that holds the byte `b` of the file.
abbrev pub piece_at : File → ℕ → ℕ
piece_at f b = (f.offset + b) / f.piece_length

contains-pieces_of :
    (f : File) (off len b : ℕ)
    → 0 < f.piece_length
    → off ≤ b
    → b < off + len
    → contains (pieces_of f off len) (piece_at f b) ≡ true
unfolding last_piece
contains-pieces_of f off len b l_pos lo hi =
    let first = div_mono (f.offset + off) (f.offset + b) f.piece_length l_pos (omega arith) in
    let last =
      div_mono (f.offset + b) (f.offset + off + len - 1) f.piece_length l_pos (omega arith) in
    let some_bytes : (f.offset + off + len == 0) ≡ false = ground arith in
    rw some_bytes (contains-range _ _ (piece_at f b) first (omega arith))

add_buffer_pieces_lem :
    (h : Handle) (off len : ℕ) (f : File)
    → add_buffer_pieces (some h) off len f
      ≡ ok (extend h f (pieces_of f off len), requests (pieces_of f off len))
unfolding add_buffer_pieces get_pieces_indexes
add_buffer_pieces_lem h off len f =
    let first = (f.offset + off) / f.piece_length in
    ap ok (add_from_lem h (rounds first (last_piece (f.offset + off + len) f.piece_length)) first f)

-- The pieces that are asked for, in order.
abbrev asked : File → ℕ → ℕ → List ℕ
asked f start_size end_size =
    if ltb (start_size + end_size) f.size
    then pieces_of f 0 start_size ++ pieces_of f (f.size - end_size) end_size
    else pieces_of f 0 f.size

sizes-append : (h : Handle) (ps qs : List ℕ) → sizes h (ps ++ qs) ≡ sizes h ps + sizes h qs
sizes-append h [] qs = omega arith
sizes-append h (p ∷ ps) qs = omega (arith, sizes-append h ps qs)

requests-append : (ps qs : List ℕ) → requests (ps ++ qs) ≡ requests ps ++ requests qs
requests-append [] qs = refl
requests-append (p ∷ ps) qs = rw (requests-append ps qs)

extend-extend :
    (h : Handle) (f : File) (ps qs : List ℕ) → extend h (extend h f ps) qs ≡ extend h f (ps ++ qs)
extend-extend h f ps qs = λ i. record f {
  buffer_size =
      (let e : f.buffer_size + sizes h ps + sizes h qs ≡ f.buffer_size + sizes h (ps ++ qs) =
            omega (arith, sizes-append h ps qs) in
          e)
        i;
  buffer_pieces = append_assoc f.buffer_pieces ps qs i;
}

add_ranges_lem :
    (h : Handle) (s e : ℕ) (f : File)
    → add_ranges (some h) s e f ≡ ok (extend h f (asked f s e), requests (asked f s e))
unfolding add_ranges
add_ranges_lem h s e f = elim (Bool-cases (ltb (s + e) f.size)) [
  | inl split ↦
      rw
        (
          split,
          add_buffer_pieces_lem h 0 s f,
          add_buffer_pieces_lem h (f.size - e) e (extend h f (pieces_of f 0 s)),
          extend-extend h f (pieces_of f 0 s) (pieces_of f (f.size - e) e),
          requests-append (pieces_of f 0 s) (pieces_of f (f.size - e) e),
        )
        refl
  | inr whole ↦ rw (whole, add_buffer_pieces_lem h 0 f.size f) refl
]

asked_covers :
    (f : File) (s e b : ℕ)
    → 0 < f.piece_length
    → b < f.size
    → (b < s) ⊎ (f.size ≤ b + e)
    → contains (asked f s e) (piece_at f b) ≡ true
asked_covers f s e b l_pos lt inside = elim (Bool-cases (ltb (s + e) f.size)) [
  | inl split ↦ rw split (
      contains-append (pieces_of f 0 s) (pieces_of f (f.size - e) e) (piece_at f b) (elim inside [
        | inl start ↦ inl (contains-pieces_of f 0 s b l_pos (omega arith) (omega arith))
        | inr at_end ↦
            inr (contains-pieces_of f (f.size - e) e b l_pos (omega arith) (ground arith))
      ]))
  | inr whole ↦ rw whole (contains-pieces_of f 0 f.size b l_pos (omega arith) (omega arith))
]

-- What holds of a file that has been told to buffer.
pub record IsBuffered (h : Handle) (f : File) (start_size end_size : ℕ) (g : File)
    (cs : List HandleCall) : Type 0 where
  pub covers :
      (b : ℕ)
      → b < f.size
      → (b < start_size) ⊎ (f.size ≤ b + end_size)
      → contains g.buffer_pieces (piece_at f b) ≡ true
  pub counted : g.buffer_size ≡ sizes h g.buffer_pieces
  pub requested : cs ≡ requests g.buffer_pieces
  pub started : g.is_buffering ≡ ltb 0 g.buffer_size
  pub same_priority : g.priority ≡ f.priority

-- On a live torrent `buffer` succeeds: the piece of every byte of the first `start_size` and of the last
-- `end_size` bytes is among the buffered pieces, negative sizes counting as 0; the buffer size is the
-- sum of their sizes; each is asked for at top priority with no deadline to wait for, and no other is;
-- the file is buffering unless that size is 0.
pub buffer-IsBuffered :
    (h : Handle) (start_size end_size : ℤ) (f : File)
    → 0 < f.piece_length
    → (g : File) × (cs : List HandleCall) × (buffer (some h) start_size end_size f ≡ ok (g, cs))
      × IsBuffered h f (pos_part start_size) (pos_part end_size) g cs
unfolding buffer run_buffer finish_buffer cleared
buffer-IsBuffered h s e f l_pos =
    let f' : File = cleared f in
    let ps = asked f' (pos_part s) (pos_part e) in
    let g : File = extend h f' ps in
    (
      record g { is_buffering = ltb 0 g.buffer_size },
      requests ps,
      rw (add_ranges_lem h (pos_part s) (pos_part e) f') refl,
      record {
        covers = λ b lt i. asked_covers f' (pos_part s) (pos_part e) b l_pos lt i;
        counted = omega arith;
        requested = refl;
        started = refl;
        same_priority = refl;
      },
    )
