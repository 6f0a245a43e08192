-- ===== src/Bittorrent/Pieces/Laws.antt =====
-- The cache as a map: lookups after a write and after a cleanup.
use torrest_cpp.Prelude.{
  ℕ, ◌+◌, ◌≡◌, refl, sym, subst, ap, ◌∙◌, inl, inr, ◌≤◌, ◌<◌, Bool-cases, Option, none, some, [],
  ◌∷◌, arith, ◌==◌, if◌then◌else◌,
}
use torrest_cpp.Bittorrent.Pieces.{PieceData, Pieces, find, insert, is_expired, cleanup_pieces}

pub find-insert :
    (p q : ℕ) (d : PieceData) (ps : Pieces)
    → find q (insert p d ps) ≡ (if p == q then some d else find q ps)
unfolding find insert
find-insert p q d [] = refl
find-insert p q d ((r, e) ∷ ps) = ground (arith, find-insert p q d ps)

pub find-insert_self : (p : ℕ) (d : PieceData) (ps : Pieces) → find p (insert p d ps) ≡ some d
find-insert_self p d ps = find-insert p p d ps ∙ refl_test
  where
    refl_test : (if p == p then some d else find p ps) ≡ some d
    refl_test = ground arith

-- No piece is cached twice.
abbrev pub Distinct : Pieces → Type 0
Distinct [] = Unit {0}
Distinct ((p, d) ∷ ps) = (find p ps ≡ none) × Distinct ps

pub insert-Distinct : (p : ℕ) (d : PieceData) (ps : Pieces) → Distinct ps → Distinct (insert p d ps)
unfolding find insert
insert-Distinct p d [] h = (refl, tt)
insert-Distinct p d ((q, e) ∷ ps) h =
    ground (arith, insert-Distinct p d ps h.1, find-insert p q d ps)

find-cleanup_none :
    (expiration now p : ℕ) (ps : Pieces)
    → find p ps ≡ none
    → find p (cleanup_pieces expiration now ps) ≡ none
unfolding find cleanup_pieces
find-cleanup_none x now p [] h = refl
find-cleanup_none x now p ((q, d) ∷ ps) h = ground (arith, find-cleanup_none x now p ps)

pub cleanup_pieces-Distinct :
    (expiration now : ℕ) (ps : Pieces) → Distinct ps → Distinct (cleanup_pieces expiration now ps)
unfolding cleanup_pieces
cleanup_pieces-Distinct x now [] h = tt
cleanup_pieces-Distinct x now ((q, d) ∷ ps) h =
    ground (arith, cleanup_pieces-Distinct x now ps h.1, find-cleanup_none x now q ps h.0)

-- What a cleanup at `now` makes of what is cached for a piece.
pub data Cleaned (expiration now : ℕ) : Option PieceData → Option PieceData → Type 0 where
  uncached : Cleaned expiration now none none
  kept : (d : PieceData) → now < d.read_at + expiration → Cleaned expiration now (some d) (some d)
  expired : (d : PieceData) → d.read_at + expiration ≤ now → Cleaned expiration now (some d) none

unless_expired : ℕ → ℕ → Option PieceData → Option PieceData
unless_expired expiration now none = none
unless_expired expiration now (some d) = if is_expired expiration now d then none else some d

find-cleanup_unless :
    (expiration now p : ℕ) (ps : Pieces)
    → Distinct ps
    → find p (cleanup_pieces expiration now ps) ≡ unless_expired expiration now (find p ps)
unfolding find cleanup_pieces unless_expired
find-cleanup_unless x now p [] h = refl
find-cleanup_unless x now p ((q, d) ∷ ps) h = ground (
  arith,
  find-cleanup_unless x now p ps h.1,
  find-cleanup_none x now q ps h.0,
  ap (λ k. find k (cleanup_pieces x now ps)) {x = q} {y = p},
)

unless_expired-Cleaned :
    (x now : ℕ) (o : Option PieceData) → Cleaned x now o (unless_expired x now o)
unfolding unless_expired
unless_expired-Cleaned x now none = uncached
unless_expired-Cleaned x now (some d) = elim (Bool-cases (is_expired x now d)) [
  | inl old ↦ rw old (expired d (ground (arith, old)))
  | inr young ↦ rw young (kept d (ground (arith, young)))
]

-- A cleanup keeps the pieces that were last read less than the expiration ago, removes those whose
-- last read is at least the expiration ago, and adds none, where no piece is cached twice.
pub find-cleanup_pieces :
    (expiration now p : ℕ) (ps : Pieces)
    → Distinct ps
    → Cleaned expiration now (find p ps) (find p (cleanup_pieces expiration now ps))
find-cleanup_pieces x now p ps h =
    subst (Cleaned x now (find p ps)) (sym (find-cleanup_unless x now p ps h))
      (unless_expired-Cleaned x now (find p ps))
