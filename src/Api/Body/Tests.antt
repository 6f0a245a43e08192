-- ===== src/Api/Body/Tests.antt =====
-- A range of a file of a small torrent, and the theorems about streams at concrete inputs.
use torrest_cpp.Prelude.{
  inr, ◌≡◌, refl, true, false, some, List, [], ◌∷◌, arith, ◌==◌, length, Bytes, bytes,
}
use torrest_cpp.Prelude.Int.{pos}
use torrest_cpp.Prelude.{ok}
use torrest_cpp.Bittorrent.Handle.{Handle, HandleCall, downloading}
use torrest_cpp.Bittorrent.File.{File}
use torrest_cpp.Bittorrent.Pieces.{store}
use torrest_cpp.Bittorrent.Reader.{Reader, make_reader}
use torrest_cpp.Bittorrent.Reader.Monad.{Env}
use torrest_cpp.Bittorrent.Reader.Read.{IsTruthful, IsSupplied}
use torrest_cpp.Bittorrent.Reader.Window.{piece_bytes, IsValid}
use torrest_cpp.Bittorrent.Wait.{Poll, wait_for_piece}
use torrest_cpp.Api.Body.{RangeInputStream, read_stream, file_reader, open_input_stream}
use torrest_cpp.Api.Body.Stream.{Delivers, Drained, read_stream-Delivers}
use torrest_cpp.Api.Body.Served.{joined, range_served}

-- Three pieces of 4, 4 and 2 bytes; the file is the bytes from the second to the last but one.
abbrev total : Bytes
total = bytes "abcdefghij"

abbrev file : File
file = record {
  index = 0;
  offset = 1;
  size = 8;
  path = bytes "a";
  name = bytes "a";
  piece_length = 4;
  priority = 4;
  is_buffering = false;
  buffer_pieces = [];
  buffer_size = 0;
}

abbrev handle : Handle
handle = record {
  have_piece = λ p. p == 0;
  piece_size = λ p. 4;
  piece_priority = λ p. 4;
  file_progress = [];
  download_queue = [];
  flag_paused = false;
  flag_auto_managed = true;
  state = downloading;
}

abbrev arriving : Poll
arriving = record { have_piece = true; closed = false; paused = false; now = 5 }

abbrev env : Env
env = record {
  now = 0;
  polls = λ p. arriving ∷ [];
  fetches = λ p. record {
    before = [];
    now = 5;
    start = record { events = []; now = 6 };
    wakes =
        record { events = []; now = 7 }
        ∷ record {
          events = store p (length (piece_bytes total 4 p)) (piece_bytes total 4 p) 8 ∷ [];
          now = 9;
        }
        ∷ [];
  };
}

abbrev reader : Reader
reader = record {
  offset = 1;
  size = 8;
  piece_length = 4;
  p_pieces = 1;
  piece_wait_timeout = 60;
  last_piece = 2;
  pos = 0;
}

reader_runs : file_reader 1 60 file ≡ reader
unfolding file_reader make_reader
reader_runs = refl

reader-IsValid : IsValid total (file_reader 1 60 file)
unfolding file_reader make_reader
reader-IsValid = omega arith

env-IsTruthful : IsTruthful (piece_bytes total 4) env
env-IsTruthful = record {
  before = λ p. tt;
  start = λ p. tt;
  wakes = λ p. (tt, (((refl, refl), tt), tt));
}

env-IsSupplied : IsSupplied (some 60) env
env-IsSupplied = record {
  arrives = λ p. unfold wait_for_piece in refl;
  stored = λ p. inr (omega arith, inr (omega arith, ([], _, _, _, [], refl, tt)));
}

abbrev stream : RangeInputStream
stream = record { reader = record reader { pos = 2 }; size = pos 5; position = 0; pieces = [] }

read_stream-Delivers_example : Delivers total stream 3 (read_stream handle env stream (pos 3))
read_stream-Delivers_example =
    read_stream-Delivers total handle env stream (pos 3) (omega arith, tt) env-IsTruthful

-- Five bytes from the third on, with room for three and then for four.
range_served_example :
    (s : RangeInputStream) × (cs : List HandleCall) × (outs : List Bytes) × (s2 : RangeInputStream)
    × (open_input_stream handle 1 60 file (record { start = pos 2; length = pos 5 }) []
        ≡ ok (s, cs))
    × Drained total handle s (pos 3 ∷ pos 4 ∷ []) outs s2
    × (joined outs ≡ bytes "defgh")
unfolding file_reader make_reader
range_served_example =
    range_served total handle 1 60 file 2 (pos 5) [] ((env, pos 3) ∷ (env, pos 4) ∷ [])
      reader-IsValid (omega arith) tt
      ((env-IsTruthful, env-IsSupplied), ((env-IsTruthful, env-IsSupplied), tt))
