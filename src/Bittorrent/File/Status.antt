-- ===== src/Bittorrent/File/Status.antt =====
-- What a file reports: `get_info` and `get_status` of src/bittorrent/file.cpp.
use torrest_cpp.Prelude.{
  ℕ, ◌≡◌, refl, inl, inr, not, ◌||◌, Option, some, ◌==◌, if◌then◌else◌, Bool-cases, get_elem?,
  Bytes,
}
use torrest_cpp.Prelude.Int.{ℤ, pos, ◌-ℤ◌}
use torrest_cpp.Prelude.{Result, ok, ◌>>=◌}
use torrest_cpp.Bittorrent.Handle.{Handle}
use torrest_cpp.Bittorrent.Exceptions.{Exception}
use torrest_cpp.Bittorrent.State.{State}
use torrest_cpp.Bittorrent.File.{
  File, get_completed, get_state, get_buffer_bytes_completed, get_buffer_bytes_missing,
  or_out_of_range, file_state,
}
use torrest_cpp.Bittorrent.Missing.{get_bytes_missing}

pub record FileInfo : Type 0 where
  pub id : ℕ
  pub length : ℕ
  pub path : Bytes
  pub name : Bytes

-- A `double`: 100, or `100.0 * part / whole` as the processor divides.
pub data Percentage : Type 0 where
  hundred : Percentage
  percent : ℤ → ℕ → Percentage

pub record FileStatus : Type 0 where
  pub total : ℕ
  pub total_done : ℕ
  pub progress : Percentage
  pub priority : ℕ
  pub buffering_total : ℕ
  pub buffering_progress : Percentage
  pub state : State

unfoldable pub get_info : File → FileInfo
get_info f = record { id = f.index; length = f.size; path = f.path; name = f.name }

get_progress : ℕ → File → Percentage
get_progress completed f = percent (pos completed) f.size

get_buffering_progress : Option Handle → File → Result Exception Percentage
get_buffering_progress torrent f =
    if f.buffer_size == 0 || not f.is_buffering
    then ok hundred
    else get_buffer_bytes_completed torrent f
      >>= (λ completed. ok (percent completed f.buffer_size))

-- `get_status`; `state` is `get_torrent_state` of the torrent.
pub get_status : Option Handle → Option State → File → Result Exception FileStatus
unfolding get_progress get_buffering_progress
get_status torrent state f = do
  completed ← get_completed torrent f
  buffering_progress ← get_buffering_progress torrent f
  st ← get_state state completed f
  ok (record {
    total = f.size;
    total_done = completed;
    progress = get_progress completed f;
    priority = f.priority;
    buffering_total = f.buffer_size;
    buffering_progress = buffering_progress;
    state = st;
  })

buffering_progress_known :
    (h : Handle) (f : File) → (p : Percentage) × (get_buffering_progress (some h) f ≡ ok p)
unfolding get_buffering_progress get_buffer_bytes_completed get_buffer_bytes_missing
buffering_progress_known h f = elim (Bool-cases (f.buffer_size == 0 || not f.is_buffering)) [
  | inl e ↦ (hundred, rw e refl)
  | inr e ↦
      (percent (pos f.buffer_size -ℤ get_bytes_missing h f.buffer_pieces) f.buffer_size, rw e refl)
]

-- The status of a file whose progress the handle knows.
pub get_status_known :
    (h : Handle) (st : State) (f : File) (completed : ℕ)
    → get_elem? h.file_progress f.index ≡ some completed
    → (s : FileStatus) × (get_status (some h) (some st) f ≡ ok s)
      × (s.total ≡ f.size)
      × (s.total_done ≡ completed)
      × (s.priority ≡ f.priority)
unfolding get_status get_completed or_out_of_range get_state get_progress
get_status_known h st f completed known =
    let (p, e) = buffering_progress_known h f in
    (
      record {
        total = f.size;
        total_done = completed;
        progress = get_progress completed f;
        priority = f.priority;
        buffering_total = f.buffer_size;
        buffering_progress = p;
        state = file_state st completed f;
      },
      rw (known, e) refl,
      refl,
      refl,
      refl,
    )
