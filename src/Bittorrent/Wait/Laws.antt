-- ===== src/Bittorrent/Wait/Laws.antt =====
-- When the wait for a piece ends, and how.
use torrest_cpp.Prelude.{
  ℕ, ◌≤◌, ◌≡◌, refl, sym, subst, ◌∙◌, ◌≢◌, ◌↔◌, ◌⊎◌, inl, inr, true, false, Option, some, List, [],
  ◌∷◌, arith, Bool-cases,
}
use torrest_cpp.Bittorrent.Exceptions.{torrent_closed, torrent_paused, timeout_reached}
use torrest_cpp.Bittorrent.Pieces.{has_passed}
use torrest_cpp.Bittorrent.Wait.{Poll, Waited, arrived, failed, polling, poll_once, wait_for_piece}

-- What one poll decides, first things first.
pub data Decides (until : Option ℕ) (r : Poll) : Waited → Type 0 where
  has_it : r.have_piece ≡ true → Decides until r arrived
  is_closed : r.have_piece ≡ false → r.closed ≡ true → Decides until r (failed torrent_closed)
  is_paused :
      r.have_piece ≡ false
      → r.closed ≡ false
      → r.paused ≡ true
      → Decides until r (failed torrent_paused)
  is_late :
      r.have_piece ≡ false
      → r.closed ≡ false
      → r.paused ≡ false
      → has_passed until r.now ≡ true
      → Decides until r (failed timeout_reached)

-- The polls that go on.
abbrev pub GoesOn : Option ℕ → Poll → Type 0
GoesOn until r =
    (r.have_piece ≡ false)
    × (r.closed ≡ false)
    × (r.paused ≡ false)
    × (has_passed until r.now ≡ false)

-- The outcome of the first poll that does not go on.
pub data Ends (until : Option ℕ) : List Poll → Waited → Type 0 where
  now : {r : Poll} {rs : List Poll} {o : Waited} → Decides until r o → Ends until (r ∷ rs) o
  later :
      {r : Poll} {rs : List Poll} {o : Waited}
      → GoesOn until r
      → Ends until rs o
      → Ends until (r ∷ rs) o
  never : Ends until [] polling

poll_cases :
    (until : Option ℕ) (r : Poll)
    → (Decides until r (poll_once until r)) ⊎ (GoesOn until r × (poll_once until r ≡ polling))
unfolding poll_once
poll_cases until r = elim (Bool-cases r.have_piece) [
  | inl a ↦ inl (simp a (has_it a))
  | inr na ↦ elim (Bool-cases r.closed) [
    | inl c ↦ inl (simp (na, c) (is_closed na c))
    | inr nc ↦ elim (Bool-cases r.paused) [
      | inl s ↦ inl (simp (na, nc, s) (is_paused na nc s))
      | inr ns ↦ elim (Bool-cases (has_passed until r.now)) [
        | inl l ↦ inl (simp (na, nc, ns, l) (is_late na nc ns l))
        | inr nl ↦ inr ((na, nc, ns, nl), simp (na, nc, ns, nl))
      ]
    ]
  ]
]

module _ (until : Option ℕ) (r : Poll) (rs : List Poll) where
  step_Ends :
      (o : Waited)
      → Decides until r o ⊎ GoesOn until r × (o ≡ polling)
      → Ends until rs (wait_for_piece until rs)
      → Ends until
          (r ∷ rs)
          (elim o [ arrived ↦ arrived | failed e ↦ failed e | polling ↦ wait_for_piece until rs ])
  step_Ends arrived (inl d) t = now d
  step_Ends arrived (inr g) t = absurd (let e = g.1 in cc)
  step_Ends (failed e) (inl d) t = now d
  step_Ends (failed e) (inr g) t = absurd (let k = g.1 in cc)
  step_Ends polling (inl d) t = elim d [ ]
  step_Ends polling (inr g) t = later g.0 t

  Decides-poll_once : (o : Waited) → Decides until r o → poll_once until r ≡ o
  unfolding poll_once
  Decides-poll_once o (has_it a) = ground arith
  Decides-poll_once o (is_closed a b) = ground arith
  Decides-poll_once o (is_paused a b c) = ground arith
  Decides-poll_once o (is_late a b c d) = ground arith

  GoesOn-poll_once : GoesOn until r → poll_once until r ≡ polling
  unfolding poll_once
  GoesOn-poll_once g = ground arith

  wait_for_piece_decided : (o : Waited) → Decides until r o → wait_for_piece until (r ∷ rs) ≡ o
  unfolding wait_for_piece
  wait_for_piece_decided o d = rw (Decides-poll_once o d, wait_for_piece) (final d)
    where
      final :
          {o : Waited}
          → Decides until r o
          → (elim o [ arrived ↦ arrived | failed e ↦ failed e | polling ↦ wait_for_piece until rs ])
            ≡ o
      final (has_it a) = refl
      final (is_closed a b) = refl
      final (is_paused a b c) = refl
      final (is_late a b c d) = refl

wait_for_piece-Ends : (until : Option ℕ) (rs : List Poll) → Ends until rs (wait_for_piece until rs)
unfolding wait_for_piece
wait_for_piece-Ends until [] = never
wait_for_piece-Ends until (r ∷ rs) =
    step_Ends until r rs (poll_once until r) (poll_cases until r) (wait_for_piece-Ends until rs)

Ends-wait_for_piece :
    {until : Option ℕ} {rs : List Poll} {o : Waited} → Ends until rs o → wait_for_piece until rs ≡ o
unfolding wait_for_piece
Ends-wait_for_piece {until} {o} (now {r} {rs} d) = wait_for_piece_decided until r rs o d
Ends-wait_for_piece {until} (later {r} {rs} g e) =
    rw (GoesOn-poll_once until r rs g, wait_for_piece) (Ends-wait_for_piece e)
Ends-wait_for_piece never = refl

-- The wait ends at the first poll that finds the piece, the torrent closed, the torrent paused or the
-- time limit passed, and the earliest of these in that order says how; it never ends otherwise.
pub wait_for_piece-eq_iff :
    (until : Option ℕ) (rs : List Poll) (o : Waited)
    → (wait_for_piece until rs ≡ o) ↔ Ends until rs o
wait_for_piece-eq_iff until rs o =
    (λ e. subst (λ w. Ends until rs w) e (wait_for_piece-Ends until rs), Ends-wait_for_piece)

-- Some poll is at the time `t` or later.
abbrev pub Reaches : ℕ → List Poll → Type 0
Reaches t [] = ⊥
Reaches t (r ∷ rs) = (t ≤ r.now) ⊎ Reaches t rs

Decides-ne-polling : {until : Option ℕ} {r : Poll} {o : Waited} → Decides until r o → o ≢ polling
Decides-ne-polling (has_it a) = cc
Decides-ne-polling (is_closed a b) = cc
Decides-ne-polling (is_paused a b c) = cc
Decides-ne-polling (is_late a b c d) = cc

-- With a time limit the wait is over once a poll is at the limit or later.
pub wait_for_piece-ne-polling :
    (until : ℕ) (rs : List Poll) → Reaches until rs → wait_for_piece (some until) rs ≢ polling
unfolding wait_for_piece
wait_for_piece-ne-polling until [] h = elim h [ ]
wait_for_piece-ne-polling until (r ∷ rs) h = elim (poll_cases (some until) r) [
  | inl d ↦ λ e. Decides-ne-polling d (sym (wait_for_piece_decided (some until) r rs _ d) ∙ e)
  | inr (g, e) ↦ rw (e, wait_for_piece) (wait_for_piece-ne-polling until rs (ground arith))
]
