-- ===== src/Bittorrent/Reader/Window.antt =====
-- The pieces of a torrent as slices of its bytes, and the part of a file that a read asks for.
use torrest_cpp.Prelude.{
  ℕ, ◌+◌, ◌-◌, ◌*◌, ◌/◌, ◌%◌, ◌^◌, ◌≤◌, ◌<◌, min, ◌≡◌, arith, length, drop, length-take,
  length-drop, slice, Bytes,
}
use native.Mathlib.Nat.{div-add-mod, mod-lt, mod-eq_of_lt}
use torrest_cpp.Bittorrent.Reader.{Reader, piece_from_offset, piece_offset_from_offset}

-- The torrent's bytes in pieces of `piece_length`, of which the last may be shorter.
abbrev pub piece_bytes : Bytes → ℕ → ℕ → Bytes
piece_bytes total piece_length p = slice (p * piece_length) piece_length total

-- The file lies within the torrent, the position within the file, and libtorrent's piece numbers and
-- piece lengths are those of an `int`.
pub record IsValid (total : Bytes) (r : Reader) : Type 0 where
  pub piece_length_pos : 0 < r.piece_length
  pub piece_length_int : r.piece_length < 2 ^ 31
  pub within : r.offset + r.size ≤ length total
  pub pos_within : r.pos ≤ r.size
  pub pieces_int : length total < r.piece_length * 2 ^ 31

pub length-piece_bytes :
    (total : Bytes) (l p : ℕ) → length (piece_bytes total l p) ≡ min l (length total - p * l)
length-piece_bytes total l p =
    omega (arith, length-take l (drop (p * l) total), length-drop (p * l) total)

div_bound : (n l : ℕ) → 0 < l → n < l * 2 ^ 31 → n / l < 2 ^ 31
div_bound n l pos lt = grind (arith, div-add-mod n l)

module _ {total : Bytes} {r : Reader} (v : IsValid total r) where
  pub piece_from_offset_lem :
      (off : ℕ) → off ≤ r.size → piece_from_offset r off ≡ (r.offset + off) / r.piece_length
  unfolding piece_from_offset
  piece_from_offset_lem off h =
      let b =
        div_bound (r.offset + off) r.piece_length v.piece_length_pos
          (let w = v.within in let p = v.pieces_int in omega arith) in
      mod-eq_of_lt (omega (arith, b))

  pub piece_offset_from_offset_lem :
      (off : ℕ) → piece_offset_from_offset r off ≡ (r.offset + off) % r.piece_length
  unfolding piece_offset_from_offset
  piece_offset_from_offset_lem off =
      let b = mod-lt (r.offset + off) v.piece_length_pos in
      let c = v.piece_length_int in mod-eq_of_lt (omega (arith, b))
