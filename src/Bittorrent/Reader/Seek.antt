-- ===== src/Bittorrent/Reader/Seek.antt =====
-- `Reader::seek`: the position after it, on every branch.
use torrest_cpp.Prelude.{
  ℕ, ◌≤◌, ◌≡◌, refl, sym, subst, ◌∙◌, inl, inr, List, [], arith, ltb, Bool-cases,
}
use torrest_cpp.Prelude.Int.{ℤ, pos, negsuc, ◌≤ℤ◌, ◌+ℤ◌}
use torrest_cpp.Bittorrent.Handle.{Handle, HandleCall}
use torrest_cpp.Bittorrent.Reader.{
  Reader, Whence, beg, cur, end, other, target, seek_to, seek, set_pieces_priorities,
  piece_from_offset,
}

-- How a seek to the target `t` ends.
pub data Seeks (h : Handle) (r : Reader) (t : ℤ) : ℤ × Reader × List HandleCall → Type 0 where
  moved :
      (off : ℕ)
      → t ≡ pos off
      → off ≤ r.size
      → Seeks h r t
          (pos off, record r { pos = off }, set_pieces_priorities h r (piece_from_offset r off) 0)
  refused : ¬ ((pos 0 ≤ℤ t) × (t ≤ℤ pos r.size)) → Seeks h r t (negsuc 0, r, [])

seek_to-Seeks : (h : Handle) (r : Reader) (t : ℤ) → Seeks h r t (seek_to h r t)
unfolding seek_to
seek_to-Seeks h r (negsuc n) = refused (λ b. absurd (let k = b.0 in omega arith))
seek_to-Seeks h r (pos off) = elim (Bool-cases (ltb r.size off)) [
  | inl over ↦ rw over (refused (λ b. absurd (let k = b.1 in ground arith)))
  | inr within ↦ rw within (moved off refl (ground arith))
]

pub seek-Seeks :
    (h : Handle) (r : Reader) (off : ℤ) (whence : Whence)
    → Seeks h r (target r off whence) (seek h r off whence)
unfolding seek
seek-Seeks h r off whence = seek_to-Seeks h r (target r off whence)

-- What position the offset `off` means: from the start, from the position, or from the end.
pub data Means (r : Reader) (off : ℤ) : Whence → ℤ → Type 0 where
  from_start : (t : ℤ) → t ≡ off → Means r off beg t
  from_position : (t : ℤ) → t ≡ pos r.pos +ℤ off → Means r off cur t
  from_end : (t : ℤ) → t ≡ pos r.size +ℤ off → Means r off end t

pub data Sought (h : Handle) (r : Reader) (off : ℤ) (whence : Whence)
    : ℤ × Reader × List HandleCall → Type 0 where
  arrived :
      (t : ℕ)
      → Means r off whence (pos t)
      → t ≤ r.size
      → Sought h r off whence
          (pos t, record r { pos = t }, set_pieces_priorities h r (piece_from_offset r t) 0)
  stayed :
      ((t : ℕ) → Means r off whence (pos t) → ¬ (t ≤ r.size))
      → Sought h r off whence (negsuc 0, r, [])

Means-target :
    (r : Reader) (off t : ℤ) (whence : Whence) → Means r off whence t → t ≡ target r off whence
unfolding target
Means-target r off t beg (from_start _ e) = e
Means-target r off t cur (from_position _ e) = e
Means-target r off t end (from_end _ e) = e
Means-target r off t other m = elim m [ ]

target-Means :
    (r : Reader) (off : ℤ) (t : ℕ) (whence : Whence)
    → target r off whence ≡ pos t
    → Means r off whence (pos t)
unfolding target
target-Means r off t beg e = from_start (pos t) (sym e)
target-Means r off t cur e = from_position (pos t) (sym e)
target-Means r off t end e = from_end (pos t) (sym e)
target-Means r off t other e = absurd (cc)

Seeks-Sought :
    (h : Handle) (r : Reader) (off t : ℤ) (whence : Whence) (x : ℤ × Reader × List HandleCall)
    → target r off whence ≡ t
    → Seeks h r t x
    → Sought h r off whence x
Seeks-Sought h r off t whence x e (moved p eq within) =
    arrived p (target-Means r off p whence (e ∙ eq)) within
Seeks-Sought h r off t whence x e (refused out) = stayed (λ p m within. out (
    subst (λ z. (pos 0 ≤ℤ z) × (z ≤ℤ pos r.size)) (Means-target r off (pos p) whence m ∙ e)
      (omega arith, omega arith)))

-- The offset of a seek counts from the start, from the position or from the end of the file. Where the
-- place that it means lies within the file, its end included, the seek moves the position there,
-- returns it and asks for the pieces from there on; otherwise, and for any other origin, it returns -1
-- and neither moves nor asks.
pub seek-Sought :
    (h : Handle) (r : Reader) (off : ℤ) (whence : Whence)
    → Sought h r off whence (seek h r off whence)
seek-Sought h r off whence =
    Seeks-Sought h r off (target r off whence) whence _ refl (seek-Seeks h r off whence)
