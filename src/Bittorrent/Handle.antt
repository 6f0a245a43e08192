-- ===== src/Bittorrent/Handle.antt =====
-- What src/bittorrent uses of `libtorrent::torrent_handle`. The queries are a snapshot that the code
-- is given; the calls that change the handle are recorded in the order in which they are made.
use torrest_cpp.Prelude.{ℕ, Bool, List}

-- `libtorrent::partial_piece_info`, as far as it is read: the bytes received of each block.
pub record PartialPiece : Type 0 where
  pub piece_index : ℕ
  pub blocks : List ℕ

-- `torrent_status::state_t`; `unknown` is any value without a name there.
pub data HandleState : Type 0 where
  checking_files downloading_metadata downloading finished seeding : HandleState
  checking_resume_data unused_allocating unknown : HandleState

pub record Handle : Type 0 where
  pub have_piece : ℕ → Bool
  pub piece_size : ℕ → ℕ
  pub piece_priority : ℕ → ℕ
  pub file_progress : List ℕ
  pub download_queue : List PartialPiece
  pub flag_paused : Bool
  pub flag_auto_managed : Bool
  pub state : HandleState

pub data HandleCall : Type 0 where
  set_file_priority set_piece_priority set_piece_deadline : ℕ → ℕ → HandleCall
  request_piece : ℕ → HandleCall
  unset_auto_managed set_auto_managed pause : HandleCall

-- `libtorrent::download_priority_t`: the constants that the code names.
abbrev pub dont_download : ℕ
dont_download = 0

abbrev pub default_priority : ℕ
default_priority = 4

abbrev pub top_priority : ℕ
top_priority = 7
