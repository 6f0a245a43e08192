-- ===== src/Bittorrent/File/Tests.antt =====
-- A file of a small torrent, and the theorems about files at concrete inputs.
use torrest_cpp.Prelude.{◌≡◌, refl, ◌↔◌, Bool, true, false, some, List, [], ◌∷◌, arith, ◌==◌, bytes}
use torrest_cpp.Prelude.Int.{pos, ◌≤ℤ◌}
use torrest_cpp.Prelude.{ok}
use torrest_cpp.Bittorrent.Handle.{
  Handle, HandleCall, downloading, set_piece_priority, set_piece_deadline,
}
use torrest_cpp.Bittorrent.Missing.{get_bytes_missing}
use torrest_cpp.Bittorrent.Missing.Laws.{IsConsistent, AllReceived, get_bytes_missing_lem}
use torrest_cpp.Bittorrent.File.{
  File, add_buffer_pieces, add_ranges, verify_buffering_state, buffer,
}
use torrest_cpp.Bittorrent.File.Buffer.{IsBuffered, buffer-IsBuffered}
use torrest_cpp.Bittorrent.File.Verify.{IsVerified, verify_buffering_state-IsVerified}

-- Ten pieces of 4 bytes, of which the first is there and one byte of the third.
abbrev handle : Handle
handle = record {
  have_piece = λ p. p == 0;
  piece_size = λ p. 4;
  piece_priority = λ p. 4;
  file_progress = 6 ∷ [];
  download_queue = record { piece_index = 2; blocks = 1 ∷ 0 ∷ [] } ∷ [];
  flag_paused = false;
  flag_auto_managed = true;
  state = downloading;
}

abbrev file : File
file = record {
  index = 0;
  offset = 2;
  size = 30;
  path = bytes "a/b.mkv";
  name = bytes "b.mkv";
  piece_length = 4;
  priority = 4;
  is_buffering = true;
  buffer_pieces = 0 ∷ 2 ∷ [];
  buffer_size = 8;
}

handle-IsConsistent : IsConsistent handle
handle-IsConsistent = record {
  had = λ p e. ground arith;
  within = λ p. ground arith;
  holds_some = λ p. omega arith;
}

buffer_runs :
    buffer (some handle) (pos 5) (pos 3) file
    ≡ ok (
      record file { buffer_pieces = 0 ∷ 1 ∷ 7 ∷ []; buffer_size = 12 },
      set_piece_priority 0 7
          ∷ set_piece_deadline 0 0
          ∷ set_piece_priority 1 7
          ∷ set_piece_deadline 1 0
          ∷ set_piece_priority 7 7
          ∷ set_piece_deadline 7 0
          ∷ [],
    )
unfolding buffer add_ranges add_buffer_pieces
buffer_runs = refl

get_bytes_missing_lem_example :
    (pos 0 ≤ℤ get_bytes_missing handle (0 ∷ 2 ∷ []))
    × ((get_bytes_missing handle (0 ∷ 2 ∷ []) ≡ pos 0) ↔ AllReceived handle (0 ∷ 2 ∷ []))
get_bytes_missing_lem_example = get_bytes_missing_lem handle (0 ∷ 2 ∷ []) handle-IsConsistent

buffer-IsBuffered_example :
    (g : File) × (cs : List HandleCall) × (buffer (some handle) (pos 5) (pos 3) file ≡ ok (g, cs))
    × IsBuffered handle file 5 3 g cs
buffer-IsBuffered_example = buffer-IsBuffered handle (pos 5) (pos 3) file (omega arith)

verify_buffering_state-IsVerified_example :
    (g : File) × (still : Bool) × (verify_buffering_state (some handle) file ≡ ok (g, still))
    × IsVerified handle file g still
verify_buffering_state-IsVerified_example =
    verify_buffering_state-IsVerified handle file handle-IsConsistent
