-- ===== src/Bittorrent/Exceptions.antt =====
-- The exceptions of src/bittorrent/exceptions.h and the standard ones that the code can raise. A
-- message that the source writes out is fixed by its constructor.
use torrest_cpp.Prelude.{Bytes}

-- `PieceException`, by its message.
pub data PieceFailure : Type 0 where
  torrent_closed torrent_paused timeout_reached timed_out_waiting : PieceFailure

pub data Exception : Type 0 where
  invalid_info_hash invalid_file_index invalid_torrent no_metadata reader : Exception
  duplicate_torrent load_torrent : Bytes → Exception
  piece : PieceFailure → Exception
  -- `std::out_of_range`, from `std::vector::at`
  out_of_range : Exception
  -- no exception: the code would read or write outside of a buffer
  out_of_bounds : Exception
