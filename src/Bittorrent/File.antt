-- ===== src/Bittorrent/File.antt =====
-- A file of a torrent: src/bittorrent/file.cpp and file.h. The torrent behind `mTorrent` is an
-- argument, `none` where the weak pointer has expired; the calls to its handle are results.
pub mod Buffer
pub mod Status
pub mod Verify
mod Tests
use torrest_cpp.Prelude.{
  ℕ, zero, suc, ◌+◌, ◌-◌, ◌/◌, Bool, true, false, ◌&&◌, ◌||◌, Option, none, some, List, [], ◌∷◌,
  ◌++◌, ltb, ◌==◌, if◌then◌else◌, get_elem?, Bytes,
}
use torrest_cpp.Prelude.Int.{ℤ, pos, negsuc, pos_part, ◌-ℤ◌}
use torrest_cpp.Prelude.{Result, ok, err, ◌>>=◌, ◌>>◌}
use torrest_cpp.Bittorrent.Handle.{
  Handle, HandleCall, set_file_priority, set_piece_priority, set_piece_deadline, dont_download,
  top_priority,
}
use torrest_cpp.Bittorrent.Exceptions.{Exception, invalid_torrent, out_of_range}
use torrest_cpp.Bittorrent.State.{State, downloading, buffering, finished}
use torrest_cpp.Bittorrent.Missing.{get_bytes_missing}

pub record File : Type 0 where
  pub index : ℕ
  pub offset : ℕ
  pub size : ℕ
  pub path : Bytes
  pub name : Bytes
  pub piece_length : ℕ
  pub priority : ℕ
  pub is_buffering : Bool
  pub buffer_pieces : List ℕ
  pub buffer_size : ℕ

-- `auto torrent = mTorrent.lock(); CHECK_TORRENT(torrent);`
abbrev pub lock : {A : Type 0} → Option A → Result Exception A
lock none = err invalid_torrent
lock (some t) = ok t

-- A step that changes the file and calls the handle.
abbrev pub Change : Type 0
Change = Result Exception (File × List HandleCall)

unfoldable pub set_priority : Option Handle → ℕ → File → Change
set_priority torrent priority f = do
  h ← lock torrent
  ok (
    record f { priority = priority; is_buffering = false; buffer_size = 0; buffer_pieces = [] },
    set_file_priority f.index priority ∷ [],
  )

-- `libtorrent::file_storage` at one index.
pub record FileEntry : Type 0 where
  pub offset : ℕ
  pub size : ℕ
  pub path : Bytes
  pub name : Bytes

-- The constructor, for a torrent that is alive; `priority` is what the handle says.
unfoldable pub make_file : Handle → ℕ → ℕ → ℕ → FileEntry → Change
unfolding set_priority
make_file h index piece_length priority entry =
    let f : File = record {
      index = index;
      offset = entry.offset;
      size = entry.size;
      path = entry.path;
      name = entry.name;
      piece_length = piece_length;
      priority = priority;
      is_buffering = false;
      buffer_pieces = [];
      buffer_size = 0;
    } in
    if priority == dont_download then set_priority (some h) dont_download f else ok (f, [])

or_out_of_range : Option ℕ → Result Exception ℕ
or_out_of_range none = err out_of_range
or_out_of_range (some n) = ok n

pub get_completed : Option Handle → File → Result Exception ℕ
unfolding or_out_of_range
get_completed torrent f = do h ← lock torrent; or_out_of_range (get_elem? h.file_progress f.index)

pub is_completed : Option Handle → File → Result Exception Bool
unfolding get_completed
is_completed torrent f = do ok ((← get_completed torrent f) == f.size)

-- The `if` ladder of `get_state`, for a torrent in the state `t`.
file_state : State → ℕ → File → State
file_state downloading completed f =
    if f.is_buffering
    then buffering
    else if f.priority == dont_download || completed == f.size
    then finished
    else downloading
file_state t completed f = t

-- `get_state`: the argument is `torrent->get_torrent_state()`.
pub get_state : Option State → ℕ → File → Result Exception State
unfolding file_state
get_state torrent completed f = do ok (file_state (← lock torrent) completed f)

pub get_buffer_bytes_missing : Option Handle → File → Result Exception ℤ
get_buffer_bytes_missing torrent f = do h ← lock torrent; ok (get_bytes_missing h f.buffer_pieces)

pub get_buffer_bytes_completed : Option Handle → File → Result Exception ℤ
unfolding get_buffer_bytes_missing
get_buffer_bytes_completed torrent f = do
  ok (pos f.buffer_size -ℤ (← get_buffer_bytes_missing torrent f))

abbrev is_zero : ℤ → Bool
is_zero (pos n) = n == 0
is_zero (negsuc n) = false

settle : File → Bool → File × Bool
settle f true = (record f { is_buffering = false }, false)
settle f false = (f, true)

-- `verify_buffering_state`: the file, and whether it is still buffering.
pub verify_buffering_state : Option Handle → File → Result Exception (File × Bool)
unfolding get_buffer_bytes_missing settle
verify_buffering_state torrent f =
    if f.is_buffering
    then get_buffer_bytes_missing torrent f >>= (λ missing. ok (settle f (is_zero missing)))
    else ok (f, false)

-- `(stop - 1) / piece_length`: C++ rounds towards 0, so -1 / 1 is -1 and -1 / n is 0 otherwise.
pub last_piece : ℕ → ℕ → ℤ
last_piece stop piece_length =
    if stop == 0 && piece_length == 1 then negsuc 0 else pos ((stop - 1) / piece_length)

-- The first and the last piece of `len` bytes from `off` on.
pub get_pieces_indexes : File → ℕ → ℕ → ℕ × ℤ
unfolding last_piece
get_pieces_indexes f off len =
    ((f.offset + off) / f.piece_length, last_piece (f.offset + off + len) f.piece_length)

-- How often the loop from `first` to `last` is run.
abbrev pub rounds : ℕ → ℤ → ℕ
rounds first (pos last) = last + 1 - first
rounds first (negsuc n) = 0

-- The loop of `add_buffer_pieces`, by the rounds that are left.
add_from : Handle → ℕ → ℕ → File → File × List HandleCall
add_from h zero p f = (f, [])
add_from h (suc rounds) p f =
    let (g, cs) = add_from h rounds (p + 1) (record f {
      buffer_size = f.buffer_size + h.piece_size p;
      buffer_pieces = f.buffer_pieces ++ p ∷ [];
    }) in
    (g, set_piece_priority p top_priority ∷ set_piece_deadline p 0 ∷ cs)

pub add_buffer_pieces : Option Handle → ℕ → ℕ → File → Change
unfolding add_from get_pieces_indexes
add_buffer_pieces torrent off len f = do
  h ← lock torrent
  let (first, last) = get_pieces_indexes f off len
  ok (add_from h (rounds first last) first f)

-- The two ranges, or the whole file.
add_ranges : Option Handle → ℕ → ℕ → File → Change
add_ranges torrent start_size end_size f =
    if ltb (start_size + end_size) f.size
    then add_buffer_pieces torrent 0 start_size f >>= (λ (g, cs).
      add_buffer_pieces torrent (f.size - end_size) end_size g >>= (λ (k, ds). ok (k, cs ++ ds)))
    else add_buffer_pieces torrent 0 f.size f

pub cleared : File → File
cleared f = record f { buffer_size = 0; buffer_pieces = [] }

-- What is left of the file `f` by the additions, and what `buffer` gives.
finish_buffer : File → Change → File × Result Exception (List HandleCall)
finish_buffer f (err e) = (f, err e)
finish_buffer f (ok (g, cs)) = (record g { is_buffering = ltb 0 g.buffer_size }, ok cs)

-- `buffer`: negative sizes count as 0. The buffer is cleared before the pieces are added; the file is
-- the one that is left also where that throws.
pub run_buffer : Option Handle → ℤ → ℤ → File → File × Result Exception (List HandleCall)
unfolding cleared finish_buffer
run_buffer torrent start_size end_size f =
    finish_buffer (cleared f)
      (add_ranges torrent (pos_part start_size) (pos_part end_size) (cleared f))

-- `buffer` for a caller that lets go of the file when it throws.
pub buffer : Option Handle → ℤ → ℤ → File → Change
unfolding run_buffer
buffer torrent start_size end_size f = do
  let (g, called) = run_buffer torrent start_size end_size f
  cs ← called
  ok (g, cs)
