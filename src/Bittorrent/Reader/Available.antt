-- ===== src/Bittorrent/Reader/Available.antt =====
-- `Reader::nowait_read_available`: whether all bytes of a read are there.
use torrest_cpp.Prelude.{
  ℕ, zero, suc, ◌+◌, ◌-◌, ◌*◌, ◌/◌, ◌≤◌, ◌<◌, ◌≡◌, refl, ap, subst, ◌∙◌, ◌↔◌, inl, inr, true, arith,
  leb, ◌==◌, ==_iff, Bool-cases, Bytes,
}
use torrest_cpp.Prelude.Int.{ℤ}
use native.Mathlib.Nat.{div-add-mod', mod-lt, mul-div_left}
use torrest_cpp.Prelude.Division.{div_mono}
use torrest_cpp.Bittorrent.Handle.{Handle}
use torrest_cpp.Bittorrent.Reader.{
  Reader, read_size, have_pieces, nowait_read_available, piece_from_offset,
}
use torrest_cpp.Bittorrent.Reader.Window.{IsValid, piece_from_offset_lem}

have_pieces_iff :
    (h : Handle) (rounds p : ℕ)
    → (have_pieces h rounds p ≡ true) ↔ ((q : ℕ) → p ≤ q → q < p + rounds → h.have_piece q ≡ true)
unfolding have_pieces
have_pieces_iff h zero p = ((λ _ q lo hi. absurd (omega arith)), λ _. refl)
have_pieces_iff h (suc n) p = elim (Bool-cases (h.have_piece p)) [
  | inl here ↦ (
    λ e q lo hi. elim (Bool-cases (p == q)) [
      | inl same ↦ let k : p ≡ q = (==_iff p q).0 same in subst (λ x. h.have_piece x ≡ true) k here
      | inr other ↦ (have_pieces_iff h n (p + 1)).0 (rw here at e) q (ground arith) (omega arith)
    ],
    λ all. rw here ((have_pieces_iff h n (p + 1)).1 (λ q lo hi. all q (omega arith) (omega arith))),
  )
  | inr gone ↦ (
    λ e. absurd (cc (rw gone at e)),
    λ all. absurd (let k = all p (omega arith) (omega arith) in cc),
  )
]

-- The piece that holds the byte `b` of the file.
abbrev pub piece_of : Reader → ℕ → ℕ
piece_of r b = (r.offset + b) / r.piece_length

-- Every piece from the first to the last holds a byte of the range.
byte_in :
    (a n l q : ℕ)
    → 0 < l
    → 0 < n
    → a / l ≤ q
    → q ≤ (a + n - 1) / l
    → (x : ℕ) × (a ≤ x) × (x < a + n) × (x / l ≡ q)
byte_in a n l q l_pos n_pos lo hi = elim (Bool-cases (leb a (q * l))) [
  | inl later ↦
      let f = div-add-mod' (a + n - 1) l in
      let below : q * l ≤ (a + n - 1) / l * l = grind (arith, hi) in
      (q * l, ground arith, omega arith, mul-div_left q l_pos)
  | inr earlier ↦
      let e = div-add-mod' a l in
      let lt = mod-lt a l_pos in
      let before : q * l < a = ground arith in
      (a, omega arith, omega arith, grind (arith, e, lt, lo, before))
]

module _ (total : Bytes) (h : Handle) (r : Reader) (v : IsValid total r) (n : ℕ) (n_pos : 0 < n)
    (fit : r.pos + n ≤ r.size) where
  available_iff :
      (have_pieces h
          (piece_from_offset r (r.pos + n - 1) + 1 - piece_from_offset r r.pos)
          (piece_from_offset r r.pos)
        ≡ true)
      ↔ ((b : ℕ) → r.pos ≤ b → b < r.pos + n → h.have_piece (piece_of r b) ≡ true)
  available_iff =
      let a = r.offset + r.pos in
      let l = r.piece_length in
      let start_eq = piece_from_offset_lem v r.pos v.pos_within in
      let end_at : r.offset + (r.pos + n - 1) ≡ r.offset + r.pos + n - 1 = omega arith in
      let end_eq : piece_from_offset r (r.pos + n - 1)
          ≡ (r.offset + r.pos + n - 1) / r.piece_length =
        piece_from_offset_lem v (r.pos + n - 1) (omega arith)
        ∙ ap (λ x. x / r.piece_length) end_at in
      rw (start_eq, end_eq)
        (
          λ e b lo hi.
              (have_pieces_iff h _ (a / l)).0 e (piece_of r b)
                (div_mono a (r.offset + b) l v.piece_length_pos (omega arith))
                (let m = div_mono (r.offset + b) (a + n - 1) l v.piece_length_pos (omega arith) in
                  omega arith),
          λ all. (have_pieces_iff h _ (a / l)).1 λ q lo hi.
              let (x, x_lo, x_hi, at) = byte_in a n l q v.piece_length_pos n_pos lo (omega arith) in
              let back : r.offset + (x - r.offset) ≡ x = omega arith in
              subst (λ y. h.have_piece y ≡ true) (ap (λ y. y / l) back ∙ at)
                (all (x - r.offset) (omega arith) (omega arith)),
        )

-- A read is available without waiting exactly when the piece of each byte that it would return is
-- there.
pub nowait_read_available_iff :
    (total : Bytes) (h : Handle) (r : Reader) (requested : ℤ)
    → IsValid total r
    → (nowait_read_available h r requested ≡ true) ↔ (
        (b : ℕ)
        → r.pos ≤ b
        → b < r.pos + read_size r requested
        → h.have_piece (piece_of r b) ≡ true)
unfolding nowait_read_available
nowait_read_available_iff total h r requested v =
    let inside = v.pos_within in
    let fit : r.pos + read_size r requested ≤ r.size = unfold read_size in omega arith in
    elim (Bool-cases (read_size r requested == 0)) [
      | inl e ↦
          let z : read_size r requested ≡ 0 = (==_iff _ 0).0 e in
          rw e ((λ _ b lo hi. absurd (omega arith)), λ _. refl)
      | inr e ↦ rw e (available_iff total h r v (read_size r requested) (ground arith) fit)
    ]
