-- ===== src/Bittorrent/Missing/Laws.antt =====
-- No bytes are missing exactly when every piece is there or has come in full.
use torrest_cpp.Prelude.{
  ℕ, ◌+◌, ◌≤◌, ◌<◌, ◌≡◌, refl, sym, ap, ltb, ◌↔◌, ◌⊎◌, inl, inr, true, false, List, [], ◌∷◌, arith,
  ◌==◌, if◌then◌else◌, Bool-cases,
}
use torrest_cpp.Prelude.Int.{pos, ◌≤ℤ◌}
use torrest_cpp.Bittorrent.Handle.{Handle, PartialPiece}
use torrest_cpp.Bittorrent.Missing.{sum, contains, missing_size, queue_progress, get_bytes_missing}

abbrev pub received : List ℕ → ℕ
received [] = 0
received (b ∷ bs) = b + received bs

received_lem : (bs : List ℕ) → sum bs ≡ received bs
received_lem [] = refl
received_lem (b ∷ bs) = omega (arith, received_lem bs)

-- The bytes received of the blocks of one piece, over all entries of the queue.
abbrev pub progress_of : List PartialPiece → ℕ → ℕ
progress_of [] p = 0
progress_of (q ∷ qs) p = (if q.piece_index == p then received q.blocks else 0) + progress_of qs p

-- libtorrent's download queue: pieces that are there are not in it, and of the others at most the bytes
-- that they hold have been received. A piece that has come in full stays in the queue until it has been
-- checked. No piece is empty.
pub record IsConsistent (h : Handle) : Type 0 where
  pub had : (p : ℕ) → h.have_piece p ≡ true → progress_of h.download_queue p ≡ 0
  pub within : (p : ℕ) → progress_of h.download_queue p ≤ h.piece_size p
  pub holds_some : (p : ℕ) → 0 < h.piece_size p

-- Each piece is there, or has come in full and is not listed again.
abbrev pub AllReceived : Handle → List ℕ → Type 0
AllReceived h [] = Unit {0}
AllReceived h (p ∷ ps) =
    ((h.have_piece p ≡ true)
      ⊎ ((progress_of h.download_queue p ≡ h.piece_size p) × (contains ps p ≡ false)))
    × AllReceived h ps

-- What the queue says of the pieces, each counted where it is listed last.
abbrev last_progress : List PartialPiece → List ℕ → ℕ
last_progress qs [] = 0
last_progress qs (p ∷ ps) = (if contains ps p then 0 else progress_of qs p) + last_progress qs ps

abbrev entry_last : PartialPiece → List ℕ → ℕ
entry_last q [] = 0
entry_last q (p ∷ ps) =
    (if contains ps p then 0 else (if q.piece_index == p then received q.blocks else 0))
    + entry_last q ps

last_progress-nil : (ps : List ℕ) → last_progress [] ps ≡ 0
last_progress-nil [] = refl
last_progress-nil (p ∷ ps) = ground (arith, last_progress-nil ps)

last_progress-cons :
    (q : PartialPiece) (qs : List PartialPiece) (ps : List ℕ)
    → last_progress (q ∷ qs) ps ≡ entry_last q ps + last_progress qs ps
last_progress-cons q qs [] = refl
last_progress-cons q qs (p ∷ ps) = ground (arith, last_progress-cons q qs ps)

entry_counted :
    (q : PartialPiece) (ps : List ℕ)
    → (if contains ps q.piece_index then sum q.blocks else 0) ≡ entry_last q ps
entry_counted q [] = refl
entry_counted q (p ∷ ps) = elim (Bool-cases (p == q.piece_index)) [
  | inl same ↦
      let e : p ≡ q.piece_index = ground arith in
      let c : contains ps p ≡ contains ps q.piece_index = ap (contains ps) e in
      ground (arith, entry_counted q ps, c, received_lem q.blocks)
  | inr other ↦ ground (arith, entry_counted q ps, received_lem q.blocks)
]

queue_progress_lem :
    (qs : List PartialPiece) (ps : List ℕ) → queue_progress qs ps ≡ last_progress qs ps
unfolding queue_progress
queue_progress_lem [] ps = sym (last_progress-nil ps)
queue_progress_lem (q ∷ qs) ps =
    omega (arith, entry_counted q ps, last_progress-cons q qs ps, queue_progress_lem qs ps)

-- Never more has come than is missing, and as much exactly when all have been received.
progress_bound :
    (h : Handle) (ps : List ℕ)
    → IsConsistent h
    → (last_progress h.download_queue ps ≤ missing_size h ps)
      × ((missing_size h ps ≡ last_progress h.download_queue ps) ↔ AllReceived h ps)
unfolding missing_size
progress_bound h [] c = (omega arith, ((λ _. tt), λ _. refl))
progress_bound h (p ∷ ps) c =
    let (le, iff) = progress_bound h ps c in
    let within = c.within p in
    let some_bytes = c.holds_some p in
    elim (Bool-cases (h.have_piece p)) [
      | inl a ↦
          let none_of_it = c.had p a in
          (
            ground arith,
            ((λ e. (inl a, iff.0 (ground arith))), λ r. let e = iff.1 r.1 in ground arith),
          )
      | inr na ↦ (
        ground arith,
        (
          (λ e. (inr (ground arith, ground arith), iff.0 (ground arith))),
          λ r.
              let e = iff.1 r.1 in
              elim r.0 [
                | inl had ↦ absurd (cc)
                | inr k ↦ let full = k.0 in let once = k.1 in ground arith
              ],
        ),
      )
    ]

nothing_missing :
    (h : Handle) (ps : List ℕ) → IsConsistent h → missing_size h ps ≡ 0 → AllReceived h ps
nothing_missing h ps c z = let (le, iff) = progress_bound h ps c in iff.0 (omega arith)

-- The bytes missing are never negative, and there are none exactly when each of the pieces is there, or
-- has come in full and is listed no second time. What the handle says is consistent.
pub get_bytes_missing_lem :
    (h : Handle) (ps : List ℕ)
    → IsConsistent h
    → (pos 0 ≤ℤ get_bytes_missing h ps) × ((get_bytes_missing h ps ≡ pos 0) ↔ AllReceived h ps)
unfolding get_bytes_missing
get_bytes_missing_lem h ps c =
    let (le, iff) = progress_bound h ps c in
    let q = queue_progress_lem h.download_queue ps in
    elim (Bool-cases (ltb 0 (missing_size h ps))) [
      | inr zero_ ↦
          let z : missing_size h ps ≡ 0 = ground arith in
          rw (z, get_bytes_missing) (omega arith, ((λ _. nothing_missing h ps c z), λ _. refl))
      | inl some_ ↦
          (ground arith, ((λ e. iff.0 (ground arith)), λ r. let e = iff.1 r in ground arith))
    ]
