-- ===== src/Bittorrent/Reader/Loops.antt =====
-- The loops of `Reader::read`: each piece adds the bytes of the file that follow.
use torrest_cpp.Prelude.{
  ℕ, zero, suc, ◌+◌, ◌-◌, ◌*◌, ◌≤◌, ◌<◌, min, ◌≡◌, refl, sym, ap, ◌∙◌, ◌⊎◌, inl, inr, Option, ◌++◌,
  append-nil, arith, le→leb, ltb-false, length, slice, length-slice, slice-append, slice-slice,
  Bytes,
}
use torrest_cpp.Bittorrent.Exceptions.{Exception}
use torrest_cpp.Bittorrent.Pieces.{PieceData}
use torrest_cpp.Bittorrent.Pieces.Waiting.{Holds}
use torrest_cpp.Bittorrent.Reader.Monad.{Env, ReadState, returned, fetch, wait, Post, Post->>=}
use torrest_cpp.Bittorrent.Reader.Window.{piece_bytes, length-piece_bytes}
use torrest_cpp.Bittorrent.Reader.{copy, read_first, read_rest, wait_all}

copy_lem :
    (buffer : Bytes) (off n : ℕ) (s : ReadState)
    → off + n ≤ length buffer
    → copy buffer off n s ≡ (returned (slice off n buffer), s)
unfolding copy
copy_lem buffer off n s h = rw (le→leb (off + n) (length buffer) h)

module _ (total : Bytes) (l : ℕ) (l_pos : 0 < l) (a n : ℕ) (fits : a + n ≤ length total) where
  -- `out` is the beginning of the wanted bytes, up to the start of piece `p` or complete.
  abbrev pub Reached : ℕ → Bytes → Type 0
  Reached p out = (m : ℕ) × (m ≤ n) × (out ≡ slice a m total) × ((m ≡ n) ⊎ (a + m ≡ p * l))

  -- The bytes that a piece adds, `k` of them.
  next_chunk :
      (p m k : ℕ) (d : PieceData)
      → k ≡ min (n - m) d.size
      → Holds (piece_bytes total l) p d
      → m ≤ n
      → (m ≡ n) ⊎ (a + m ≡ p * l)
      → (0 + k ≤ length d.buffer)
        × (slice a m total ++ slice 0 k d.buffer ≡ slice a (m + k) total)
        × (m + k ≤ n)
        × ((m + k ≡ n) ⊎ (a + (m + k) ≡ (p + 1) * l))
  next_chunk p m k d ek h le (inl e) =
      let k0 : k ≡ 0 = omega arith in
      (
        omega arith,
        rw (k0, append-nil (slice a m total)) (ap (λ x. slice a x total) (omega arith)),
        omega arith,
        inl (omega arith),
      )
  next_chunk p m k d ek h le (inr e) =
      let size : d.size ≡ min l (length total - p * l) = h.1 ∙ length-piece_bytes total l p in
      let len : length d.buffer ≡ d.size = ap length h.0 ∙ sym h.1 in
      let within : 0 + k ≤ l = omega arith in
      (
        omega arith,
        rw (h.0, slice-slice (p * l) l 0 k total within)
            (let start : p * l + 0 ≡ a + m = omega arith in rw start (slice-append a m k total)),
        omega arith,
        omega arith,
      )

  first_chunk :
      (start off k : ℕ) (d : PieceData)
      → k ≡ min n (d.size - off)
      → Holds (piece_bytes total l) start d
      → a ≡ start * l + off
      → off < l
      → 0 < n
      → (off ≤ d.size) × (off + k ≤ length d.buffer) × Reached (start + 1) (slice off k d.buffer)
  first_chunk start off k d ek h ea lt pos_n =
      let size : d.size ≡ min l (length total - start * l) =
        h.1 ∙ length-piece_bytes total l start in
      let len : length d.buffer ≡ d.size = ap length h.0 ∙ sym h.1 in
      let within : off + k ≤ l = omega arith in
      let bytes_eq : slice off k d.buffer ≡ slice a k total =
        rw (h.0, slice-slice (start * l) l off k total within, ea) refl in
      (omega arith, omega arith, (k, omega arith, bytes_eq, omega arith))

  module _ (E : Option Exception → Type 0) (I : ReadState → Type 0) (env : Env) (until : Option ℕ)
      (fetched : (p : ℕ) (s : ReadState)
        → I s
        → Post (Holds (piece_bytes total l) p) E I (fetch env until p s)) where
    pub read_first-Post :
        (start off : ℕ) (s : ReadState)
        → a ≡ start * l + off
        → off < l
        → 0 < n
        → I s
        → Post (Reached (start + 1)) E I (read_first env until start off n s)
    unfolding read_first
    read_first-Post start off s ea lt pos_n i =
        Post->>= (Holds (piece_bytes total l) start) (Reached (start + 1)) E I
          (fetch env until start) _ s (fetched start s i)
          λ d t h j.
            let (le, fit, reached) = first_chunk start off _ d refl h ea lt pos_n in
            rw (ltb-false d.size off le, copy_lem d.buffer off (min n (d.size - off)) t fit)
              (reached, j)

    pub read_rest-Post :
        (end_piece rounds p : ℕ) (out : Bytes) (s : ReadState)
        → a + n ≤ (end_piece + 1) * l
        → p + rounds ≡ end_piece + 1
        → Reached p out
        → I s
        → Post (λ o. o ≡ slice a n total) E I (read_rest env until n rounds p out s)
    unfolding read_rest
    read_rest-Post end_piece zero p out s last ep (m, le, eo, at_end) i =
        let ep' : p ≡ end_piece + 1 = omega arith in
        let whole : a + m ≡ p * l → a + m ≡ (end_piece + 1) * l = λ h. h ∙ ap (λ x. x * l) ep' in
        let full : m ≡ n = elim at_end [ inl e ↦ e | inr e ↦ omega (arith, whole e) ] in
        (rw full at eo, i)
    read_rest-Post end_piece (suc rounds) p out s last ep (m, le, eo, at_end) i =
        Post->>= (Holds (piece_bytes total l) p) (λ o. o ≡ slice a n total) E I (fetch env until p)
          _ s (fetched p s i)
          λ d t h j.
            let len : length out ≡ m = ap length eo ∙ length-slice a m total (omega arith) in
            let (fit, joined, le', at_end') =
              next_chunk p m (min (n - length out) d.size) d (ap (λ x. min (n - x) d.size) len) h le
                at_end in
            rw (copy_lem d.buffer 0 (min (n - length out) d.size) t fit) (
              read_rest-Post end_piece rounds (p + 1)
                (out ++ slice 0 (min (n - length out) d.size) d.buffer) t last (omega arith)
                (
                  _,
                  le',
                  ap (λ o. o ++ slice 0 (min (n - length out) d.size) d.buffer) eo ∙ joined,
                  at_end',
                )
                j)

module _ (E : Option Exception → Type 0) (I : ReadState → Type 0) (env : Env) (until : Option ℕ)
    (arrives : (p : ℕ) (s : ReadState) → I s → Post (λ _. Unit {0}) E I (wait env until p s)) where
  pub wait_all-Post :
      (rounds p : ℕ) (s : ReadState)
      → I s
      → Post (λ _. Unit {0}) E I (wait_all env until rounds p s)
  unfolding wait_all
  wait_all-Post zero p s i = (tt, i)
  wait_all-Post (suc rounds) p s i =
      Post->>= (λ _. Unit {0}) (λ _. Unit {0}) E I (wait env until p) _ s (arrives p s i)
        λ _ t _ j. wait_all-Post rounds (p + 1) t j
