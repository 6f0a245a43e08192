-- ===== src/Bittorrent/State.antt =====
-- The states that the service reports: `State` of src/bittorrent/enums.h and
-- `Torrent::get_torrent_state` of src/bittorrent/torrent.cpp.
use torrest_cpp.Prelude.{Bool, ◌&&◌, if◌then◌else◌}
use torrest_cpp.Bittorrent.Handle.{Handle, HandleState}

pub data State : Type 0 where
  queued checking finding downloading finished seeding allocating : State
  checking_resume_data paused buffering : State

-- The `switch` over libtorrent's state; an unknown one is logged and stays `queued`.
unfoldable pub of_handle_state : HandleState → State
of_handle_state HandleState.checking_files = checking
of_handle_state HandleState.downloading_metadata = finding
of_handle_state HandleState.downloading = downloading
of_handle_state HandleState.finished = finished
of_handle_state HandleState.seeding = seeding
of_handle_state HandleState.checking_resume_data = checking_resume_data
of_handle_state HandleState.unused_allocating = allocating
of_handle_state HandleState.unknown = queued

-- `get_torrent_state` of a torrent whose `mPaused` and `mHasMetadata` are given.
unfoldable pub get_torrent_state : Bool → Bool → Handle → State
unfolding of_handle_state
get_torrent_state is_paused has_metadata h =
    if is_paused
    then paused
    else if h.flag_paused && h.flag_auto_managed
    then queued
    else if has_metadata
    then of_handle_state h.state
    else finding
