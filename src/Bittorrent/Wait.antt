-- ===== src/Bittorrent/Wait.antt =====
-- `Torrent::wait_for_piece` of src/bittorrent/torrent.cpp: the loop that polls the torrent twice a
-- second. A poll is what one round reads.
pub mod Laws
use torrest_cpp.Prelude.{ℕ, Bool, Option, List, [], ◌∷◌, if◌then◌else◌}
use torrest_cpp.Bittorrent.Exceptions.{
  PieceFailure, torrent_closed, torrent_paused, timeout_reached,
}
use torrest_cpp.Bittorrent.Pieces.{has_passed}

pub record Poll : Type 0 where
  pub have_piece : Bool
  pub closed : Bool
  pub paused : Bool
  pub now : ℕ

pub data Waited : Type 0 where
  arrived : Waited
  failed : PieceFailure → Waited
  polling : Waited

-- The body of the loop: `polling` goes on to sleep.
pub poll_once : Option ℕ → Poll → Waited
poll_once until r =
    if r.have_piece
    then arrived
    else if r.closed
    then failed torrent_closed
    else if r.paused
    then failed torrent_paused
    else if has_passed until r.now
    then failed timeout_reached
    else polling

unfoldable pub wait_for_piece : Option ℕ → List Poll → Waited
unfolding poll_once
wait_for_piece until [] = polling
wait_for_piece until (r ∷ rs) = elim (poll_once until r) [
  | arrived ↦ arrived
  | failed e ↦ failed e
  | polling ↦ wait_for_piece until rs
]
