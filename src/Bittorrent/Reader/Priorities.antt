-- ===== src/Bittorrent/Reader/Priorities.antt =====
-- What `Reader::set_pieces_priorities` does to the priorities of the pieces.
use torrest_cpp.Prelude.{
  ℕ, zero, suc, ◌+◌, ◌-◌, ◌≤◌, ◌<◌, max, ◌≡◌, refl, ap, ◌∙◌, ◌≢◌, ◌⊎◌, inl, inr, ◌&&◌, List, [],
  ◌∷◌, ◌++◌, arith, leb, ◌==◌, if◌then◌else◌, ==_iff, Bool-cases,
}
use torrest_cpp.Bittorrent.Handle.{
  Handle, HandleCall, set_file_priority, set_piece_priority, set_piece_deadline, request_piece,
  unset_auto_managed, set_auto_managed, pause,
}
use torrest_cpp.Bittorrent.Reader.{
  Reader, raise_priority, prioritise, prioritise_from, set_pieces_priorities,
}

-- The priority of piece `p` after the calls, if it was `current` before.
abbrev pub priority_after : List HandleCall → ℕ → ℕ → ℕ
priority_after [] p current = current
priority_after (set_piece_priority q v ∷ cs) p current =
    priority_after cs p (if q == p then v else current)
priority_after (set_file_priority _ _ ∷ cs) p current = priority_after cs p current
priority_after (set_piece_deadline _ _ ∷ cs) p current = priority_after cs p current
priority_after (request_piece _ ∷ cs) p current = priority_after cs p current
priority_after (unset_auto_managed ∷ cs) p current = priority_after cs p current
priority_after (set_auto_managed ∷ cs) p current = priority_after cs p current
priority_after (pause ∷ cs) p current = priority_after cs p current

priority_after-append :
    (cs ds : List HandleCall) (p c : ℕ)
    → priority_after (cs ++ ds) p c ≡ priority_after ds p (priority_after cs p c)
priority_after-append [] ds p c = refl
priority_after-append (set_piece_priority q v ∷ cs) ds p c = priority_after-append cs ds p _
priority_after-append (set_file_priority _ _ ∷ cs) ds p c = priority_after-append cs ds p c
priority_after-append (set_piece_deadline _ _ ∷ cs) ds p c = priority_after-append cs ds p c
priority_after-append (request_piece _ ∷ cs) ds p c = priority_after-append cs ds p c
priority_after-append (unset_auto_managed ∷ cs) ds p c = priority_after-append cs ds p c
priority_after-append (set_auto_managed ∷ cs) ds p c = priority_after-append cs ds p c
priority_after-append (pause ∷ cs) ds p c = priority_after-append cs ds p c

-- What a missing piece at the distance `i` from the first is raised to.
abbrev pub wanted : Handle → ℕ → ℕ → ℕ → ℕ
wanted h end_offset i p =
    if h.have_piece p
    then h.piece_priority p
    else max (h.piece_priority p) (if leb i end_offset then 7 else 6)

prioritise_other :
    (h : Handle) (end_offset i q p : ℕ) {c : ℕ}
    → q ≢ p
    → priority_after (prioritise h end_offset i q) p c ≡ c
unfolding prioritise raise_priority
prioritise_other h eo i q p ne = ground arith

prioritise_self :
    (h : Handle) (end_offset i p : ℕ)
    → priority_after (prioritise h end_offset i p) p (h.piece_priority p) ≡ wanted h end_offset i p
unfolding prioritise raise_priority
prioritise_self h eo i p = ground arith

prioritise_from_outside :
    (h : Handle) (end_offset rounds i q p c : ℕ)
    → (p < q) ⊎ (q + rounds ≤ p)
    → priority_after (prioritise_from h end_offset rounds i q) p c ≡ c
unfolding prioritise_from
prioritise_from_outside h eo zero i q p c o = refl
prioritise_from_outside h eo (suc n) i q p c o =
    priority_after-append (prioritise h eo i q) (prioritise_from h eo n (i + 1) (q + 1)) p c
    ∙ prioritise_from_outside h eo n (i + 1) (q + 1) p _ (omega arith)
    ∙ prioritise_other h eo i q p (omega arith)

prioritise_from_inside :
    (h : Handle) (end_offset rounds i q p : ℕ)
    → q ≤ p
    → p < q + rounds
    → priority_after (prioritise_from h end_offset rounds i q) p (h.piece_priority p)
      ≡ wanted h end_offset (i + (p - q)) p
unfolding prioritise_from
prioritise_from_inside h eo zero i q p lo hi = absurd (omega arith)
prioritise_from_inside h eo (suc n) i q p lo hi = elim (Bool-cases (q == p)) [
  | inl same ↦
      let e : q ≡ p = (==_iff q p).0 same in
      rw e (
        priority_after-append (prioritise h eo i p) (prioritise_from h eo n (i + 1) (p + 1)) p _
        ∙ prioritise_from_outside h eo n (i + 1) (p + 1) p _ (omega arith)
        ∙ prioritise_self h eo i p
        ∙ ap (λ k. wanted h eo k p) (omega arith))
  | inr other ↦
      let ne : q ≢ p = ground arith in
      priority_after-append (prioritise h eo i q) (prioritise_from h eo n (i + 1) (q + 1)) p _
      ∙ ap (priority_after (prioritise_from h eo n (i + 1) (q + 1)) p)
          (prioritise_other h eo i q p ne)
      ∙ prioritise_from_inside h eo n (i + 1) (q + 1) p (omega arith) (omega arith)
      ∙ ap (λ k. wanted h eo k p) (omega arith)
]

-- The new priority of every piece: a missing piece from `piece` on is raised to at least 7 if it is one
-- of the next `end_offset`, and to at least 6 if it is one of the `p_pieces` behind them, up to the
-- last piece of the file; no priority is lowered, and no other piece is touched.
pub set_pieces_priorities_lem :
    (h : Handle) (r : Reader) (piece end_offset p : ℕ)
    → priority_after (set_pieces_priorities h r piece end_offset) p (h.piece_priority p) ≡ (
        if leb piece p && (leb p (piece + end_offset + r.p_pieces) && leb p r.last_piece)
        then wanted h end_offset (p - piece) p
        else h.piece_priority p)
unfolding set_pieces_priorities
set_pieces_priorities_lem h r piece eo p =
    elim (Bool-cases (leb piece p && (leb p (piece + eo + r.p_pieces) && leb p r.last_piece))) [
      | inl inside ↦ rw inside (
          prioritise_from_inside h eo _ 0 piece p (ground arith) (ground arith)
          ∙ ap (λ k. wanted h eo k p) (omega arith))
      | inr outside ↦ rw outside (prioritise_from_outside h eo _ 0 piece p _ (ground arith))
    ]
