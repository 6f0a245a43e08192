-- ===== src/Bittorrent/Missing.antt =====
-- `Torrent::get_bytes_missing` of src/bittorrent/torrent.cpp.
pub mod Laws
use torrest_cpp.Prelude.{ℕ, ◌+◌, Bool, false, ◌||◌, List, [], ◌∷◌, ltb, ◌==◌, if◌then◌else◌}
use torrest_cpp.Prelude.Int.{ℤ, pos, sub_ℕ}
use torrest_cpp.Bittorrent.Handle.{Handle, PartialPiece}

abbrev pub sum : List ℕ → ℕ
sum [] = 0
sum (x ∷ xs) = x + sum xs

-- `std::find(pPieces.begin(), pPieces.end(), piece) != pPieces.end()`
abbrev pub contains : List ℕ → ℕ → Bool
contains [] p = false
contains (q ∷ qs) p = q == p || contains qs p

-- The first loop: the sizes of the pieces that are not there.
pub missing_size : Handle → List ℕ → ℕ
missing_size h [] = 0
missing_size h (p ∷ ps) = (if h.have_piece p then 0 else h.piece_size p) + missing_size h ps

-- The loop over the download queue: the bytes received of the pieces that are asked for.
pub queue_progress : List PartialPiece → List ℕ → ℕ
queue_progress [] ps = 0
queue_progress (q ∷ qs) ps =
    (if contains ps q.piece_index then sum q.blocks else 0) + queue_progress qs ps

unfoldable pub get_bytes_missing : Handle → List ℕ → ℤ
unfolding missing_size queue_progress
get_bytes_missing h ps =
    if ltb 0 (missing_size h ps)
    then sub_ℕ (missing_size h ps) (queue_progress h.download_queue ps)
    else pos (missing_size h ps)
