-- ===== src/Bittorrent/Reader/Tests.antt =====
-- A small torrent, and the theorems about its reader at concrete inputs.
use torrest_cpp.Prelude.{
  ◌⊎◌, inr, ℕ, ◌+◌, ◌≤◌, ◌<◌, ◌≡◌, refl, ◌≢◌, ◌↔◌, true, false, some, [], ◌∷◌, arith, ◌==◌, length,
  Bytes, bytes,
}
use torrest_cpp.Prelude.Int.{pos, negsuc}
use torrest_cpp.Bittorrent.Handle.{Handle, downloading}
use torrest_cpp.Bittorrent.Pieces.{
  Pieces, store, CacheEvent, cleanup, Wake, find, cleanup_pieces, read_piece,
}
use torrest_cpp.Bittorrent.Pieces.Laws.{Cleaned, find-cleanup_pieces}
use torrest_cpp.Bittorrent.Pieces.Refresh.{Refreshed, IsRoundAt, read_piece-Refreshed}
use torrest_cpp.Bittorrent.Pieces.Waiting.{
  Delivers, HasEnded, IsFaithful, read_piece-Delivers, read_piece-HasEnded,
}
use torrest_cpp.Bittorrent.Wait.{Poll, arrived, polling, wait_for_piece}
use torrest_cpp.Bittorrent.Wait.Laws.{Ends, wait_for_piece-eq_iff, wait_for_piece-ne-polling}
use torrest_cpp.Bittorrent.Reader.Monad.{Env, ReadState, returned}
use torrest_cpp.Bittorrent.Reader.Window.{piece_bytes, IsValid}
use torrest_cpp.Bittorrent.Reader.Read.{
  Reads, IsTruthful, IsOwn, IsSupplied, read_lem, read_returns,
}
use torrest_cpp.Bittorrent.Reader.Priorities.{priority_after, set_pieces_priorities_lem}
use torrest_cpp.Bittorrent.Reader.Seek.{Sought, seek-Sought}
use torrest_cpp.Bittorrent.Reader.Available.{piece_of, nowait_read_available_iff}
use torrest_cpp.Bittorrent.Reader.{
  Reader, make_reader, end, seek, read, read_size, set_pieces_priorities, nowait_read_available,
}

-- Three pieces of 4, 4 and 2 bytes.
abbrev total : Bytes
total = bytes "abcdefghij"

-- A file of the bytes from the second to the last but one.
abbrev file_reader : Reader
file_reader = record {
  offset = 1;
  size = 8;
  piece_length = 4;
  p_pieces = 1;
  piece_wait_timeout = 60;
  last_piece = 2;
  pos = 2;
}

make_reader_runs : make_reader 1 8 4 1 60 ≡ record file_reader { pos = 0 }
unfolding make_reader
make_reader_runs = refl

abbrev handle : Handle
handle = record {
  have_piece = λ p. p == 0;
  piece_size = λ p. 4;
  piece_priority = λ p. 4;
  file_progress = [];
  download_queue = [];
  flag_paused = false;
  flag_auto_managed = true;
  state = downloading;
}

abbrev arriving : Poll
arriving = record { have_piece = true; closed = false; paused = false; now = 5 }

abbrev alert : ℕ → CacheEvent
alert p = store p (length (piece_bytes total 4 p)) (piece_bytes total 4 p) 8

abbrev env : Env
env = record {
  now = 0;
  polls = λ p. arriving ∷ [];
  fetches = λ p. record {
    before = [];
    now = 5;
    start = record { events = []; now = 6 };
    wakes = record { events = []; now = 7 } ∷ record { events = alert p ∷ []; now = 9 } ∷ [];
  };
}

abbrev at_start : ReadState
at_start = record { pieces = []; calls = []; position = 2 }

file_reader-IsValid : IsValid total file_reader
file_reader-IsValid = omega arith

env-IsTruthful : IsTruthful (piece_bytes total 4) env
env-IsTruthful = record {
  before = λ p. tt;
  start = λ p. tt;
  wakes = λ p. (tt, (((refl, refl), tt), tt));
}

env-IsSupplied : IsSupplied (some 60) env
env-IsSupplied = record {
  arrives = λ p. unfold wait_for_piece in refl;
  stored = λ p. inr (omega arith, inr (omega arith, ([], _, _, _, [], refl, tt)));
}

read_lem_example :
    Reads total file_reader IsOwn
      (IsFaithful (piece_bytes total 4))
      (read_size file_reader (pos 5))
      (read handle env file_reader (pos 5) at_start)
read_lem_example =
    read_lem total handle env file_reader (pos 5) at_start file_reader-IsValid env-IsTruthful tt
      refl

read_returns_example :
    (t : ReadState) × (read handle env file_reader (pos 5) at_start ≡ (returned (bytes "defgh"), t))
    × (t.position ≡ 7)
unfolding read_size
read_returns_example =
    read_returns total handle env file_reader (pos 5) at_start file_reader-IsValid env-IsTruthful tt
      env-IsSupplied refl

set_pieces_priorities_lem_example :
    priority_after (set_pieces_priorities handle file_reader 0 1) 2 4 ≡ 6
set_pieces_priorities_lem_example = set_pieces_priorities_lem handle file_reader 0 1 2

seek-Sought_example :
    Sought handle file_reader (negsuc 2) end (seek handle file_reader (negsuc 2) end)
seek-Sought_example = seek-Sought handle file_reader (negsuc 2) end

nowait_read_available_iff_example : (nowait_read_available handle file_reader (pos 1) ≡ true) ↔ (
    (b : ℕ)
    → 2 ≤ b
    → b < 2 + read_size file_reader (pos 1)
    → handle.have_piece (piece_of file_reader b) ≡ true)
nowait_read_available_iff_example =
    nowait_read_available_iff total handle file_reader (pos 1) file_reader-IsValid

abbrev cache : Pieces
cache =
    (3, record { size = 1; buffer = bytes "x"; read_at = 10 })
    ∷ (7, record { size = 1; buffer = bytes "y"; read_at = 14 })
    ∷ []

find-cleanup_pieces_example : Cleaned 5 15 (find 3 cache) (find 3 (cleanup_pieces 5 15 cache))
find-cleanup_pieces_example = find-cleanup_pieces 5 15 3 cache (unfold find in (refl, (refl, tt)))

read_piece-Delivers_example :
    Delivers
      (piece_bytes total 4)
      1
      (read_piece 1
        (some 60)
        5
        []
        (record { events = alert 1 ∷ []; now = 6 })
        (record { events = cleanup 5 20 ∷ []; now = 20 } ∷ [])).1
read_piece-Delivers_example =
    read_piece-Delivers (piece_bytes total 4) 1 (some 60) 5 []
      (record { events = alert 1 ∷ []; now = 6 })
      (record { events = cleanup 5 20 ∷ []; now = 20 } ∷ []) tt ((refl, refl), tt) ((tt, tt), tt)

-- The piece comes while the read waits; a cleanup finds it read at that time.
read_piece-Refreshed_example :
    Refreshed 1 5 10
      (λ t. (t ≡ 5) ⊎ IsRoundAt t 6 (record { events = alert 1 ∷ []; now = 9 } ∷ []))
      (read_piece 1
        (some 60)
        5
        []
        (record { events = []; now = 6 })
        (record { events = alert 1 ∷ []; now = 9 } ∷ [])).1
read_piece-Refreshed_example =
    read_piece-Refreshed 1 5 10 (some 60) 5 [] (record { events = []; now = 6 })
      (record { events = alert 1 ∷ []; now = 9 } ∷ []) tt

abbrev quiet : ℕ → Wake
quiet t = record { events = []; now = t }

read_piece-HasEnded_example :
    HasEnded (read_piece 1 (some 60) 5 [] (quiet 6) (quiet 30 ∷ quiet 61 ∷ [])).1
read_piece-HasEnded_example =
    read_piece-HasEnded 1 60 5 [] (quiet 6) (quiet 30 ∷ quiet 61 ∷ []) (omega arith)

abbrev absent : ℕ → Poll
absent t = record { have_piece = false; closed = false; paused = false; now = t }

wait_for_piece-eq_iff_example :
    (wait_for_piece (some 60) (absent 1 ∷ arriving ∷ []) ≡ arrived)
    ↔ Ends (some 60) (absent 1 ∷ arriving ∷ []) arrived
wait_for_piece-eq_iff_example = wait_for_piece-eq_iff (some 60) (absent 1 ∷ arriving ∷ []) arrived

wait_for_piece-ne-polling_example : wait_for_piece (some 60) (absent 1 ∷ absent 60 ∷ []) ≢ polling
wait_for_piece-ne-polling_example =
    wait_for_piece-ne-polling 60 (absent 1 ∷ absent 60 ∷ []) (omega arith)
