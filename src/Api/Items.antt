-- ===== src/Api/Items.antt =====
-- `TorrentsController::torrentItems` of src/api/controller/torrents.h: the files and the folders under a
-- folder of a torrent, with src/api/dto/folder_info_status.h. `boost::filesystem::path` is a record of
-- parameters over the texts of paths.
pub mod Sums
pub mod Loop
pub mod Progress
pub mod Outcomes
pub mod Emptiness
mod Tests
pub mod Folders
pub mod Listing
use torrest_cpp.Prelude.{
  ℕ, ◌+◌, Bool, true, false, not, ◌&&◌, Option, none, some, List, [], ◌∷◌, ◌++◌, map, ltb, ◌==◌,
  if◌then◌else◌, length, Bytes, bytes, is_empty, bytes_eq,
}
use torrest_cpp.Prelude.Int.{pos}
use torrest_cpp.Prelude.{Result, ok, ◌>>=◌, ◌>>◌}
use mathlib.Core.Option
use torrest_cpp.Bittorrent.Handle.{Handle}
use torrest_cpp.Bittorrent.Exceptions.{Exception}
use torrest_cpp.Bittorrent.State.{get_torrent_state}
use torrest_cpp.Bittorrent.File.{File}
use torrest_cpp.Bittorrent.File.Status.{
  FileInfo, FileStatus, Percentage, hundred, percent, get_info, get_status,
}
use torrest_cpp.Bittorrent.Torrent.{Torrent, get_files}
use torrest_cpp.Bittorrent.Service.{Service, must_find_torrent}
use torrest_cpp.Api.Errors.{ApiException, of_core, unescape}

-- `components` are the elements that an iterator over a path meets and `slash` is operator `/`.
pub record Paths : Type 0 where
  pub components : Bytes → List Bytes
  pub filename : Bytes → Bytes
  pub remove_filename : Bytes → Bytes
  pub slash : Bytes → Bytes → Bytes
  pub preferred_separator : Bytes

-- The fields of `FolderStatus`; the progress is set last.
pub record FolderStatus : Type 0 where
  pub total : ℕ
  pub total_done : ℕ
  pub total_wanted : ℕ
  pub total_wanted_done : ℕ
  pub wanted_count : ℕ
  pub progress : Option Percentage

-- `FolderInfoStatus`
pub record Folder : Type 0 where
  pub name : Bytes
  pub path : Bytes
  pub length : ℕ
  pub file_count : ℕ
  pub status : Option FolderStatus

-- The files and the folders of the answer.
pub record Items : Type 0 where
  pub folders : List Folder
  pub files : List (FileInfo × Option FileStatus)

pub optional : {E A : Type 0} → Bool → Result E A → Result E (Option A)
optional status r = if status then r >>= (λ a. ok (some a)) else ok none

-- `file->get_status()`, if `status` is asked for.
pub file_status : Bool → Handle → Torrent → File → Result Exception (Option FileStatus)
unfolding optional
file_status status h t f =
    optional status (get_status (some h) (some (get_torrent_state t.is_paused t.has_metadata h)) f)

-- A first file that is not wanted, and one that is.
pub unwanted_status : FileStatus → FolderStatus
unwanted_status s = record {
  total = s.total;
  total_done = s.total_done;
  total_wanted = 0;
  total_wanted_done = 0;
  wanted_count = 0;
  progress = none;
}

pub wanted_status : FileStatus → FolderStatus
wanted_status s = record {
  total = s.total;
  total_done = s.total_done;
  total_wanted = s.total;
  total_wanted_done = s.total_done;
  wanted_count = 1;
  progress = none;
}

-- The status of a folder with a first file.
pub first_status : FileStatus → FolderStatus
unfolding unwanted_status wanted_status
first_status s = if s.priority == 0 then unwanted_status s else wanted_status s

pub add_total : FileStatus → FolderStatus → FolderStatus
add_total s old = record old {
  total = old.total + s.total;
  total_done = old.total_done + s.total_done;
}

pub add_wanted : FileStatus → FolderStatus → FolderStatus
add_wanted s old = record old {
  total_wanted = old.total_wanted + s.total;
  total_wanted_done = old.total_wanted_done + s.total_done;
  wanted_count = old.wanted_count + 1;
}

-- The status of a folder with one file more.
pub next_status : FileStatus → FolderStatus → FolderStatus
unfolding add_total add_wanted
next_status s old = if s.priority == 0 then add_total s old else add_wanted s (add_total s old)

pub first_statuses : Option FileStatus → Option FolderStatus
unfolding first_status
first_statuses none = none
first_statuses (some s) = some (first_status s)

pub next_statuses : Option FileStatus → Option FolderStatus → Option FolderStatus
unfolding next_status
next_statuses (some s) (some old) = some (next_status s old)
next_statuses _ old = old

pub new_folder : Bytes → Bytes → File → Option FileStatus → Folder
unfolding first_statuses
new_folder name path f s = record {
  name = name;
  path = path;
  length = f.size;
  file_count = 1;
  status = first_statuses s;
}

pub add_to_folder : File → Option FileStatus → Folder → Folder
unfolding next_statuses
add_to_folder f s g = record g {
  length = g.length + f.size;
  file_count = g.file_count + 1;
  status = next_statuses s g.status;
}

-- The change of `*it`, the last folder with the path; `none` where there is no such folder.
pub update_last : Bytes → (Folder → Folder) → List Folder → Option (List Folder)
update_last path change [] = none
update_last path change (g ∷ gs) = elim (update_last path change gs) [
  | some hs ↦ some (g ∷ hs)
  | none ↦ if bytes_eq g.path path then some (change g ∷ gs) else none
]

-- "Build or update our response".
pub add_file : Bytes → Bytes → File → Option FileStatus → List Folder → List Folder
unfolding update_last new_folder add_to_folder
add_file name path f s gs = elim (update_last path (add_to_folder f s) gs) [
  | some hs ↦ hs
  | none ↦ gs ++ new_folder name path f s ∷ []
]

-- `std::mismatch`: what is left of a path behind the prefix, `none` where the prefix does not lead it.
pub relative : List Bytes → List Bytes → Option (List Bytes)
relative [] path = some path
relative (p ∷ ps) [] = none
relative (p ∷ ps) (c ∷ cs) = let rest = relative ps cs in if bytes_eq p c then rest else none

pub folder_path : Paths → Bytes → Bytes → Bytes
folder_path lib prefix name = lib.slash prefix name ++ lib.preferred_separator

-- The `if ... else if` over the number of components; `listed` is `get_info` with the status.
pub place : Paths → Bytes → File → Option FileStatus → Option (List Bytes) → Items → Items
unfolding add_file folder_path
place lib prefix f s (some (c ∷ [])) i = record i { files = i.files ++ (get_info f, s) ∷ [] }
place lib prefix f s (some (c ∷ d ∷ cs)) i = record i {
  folders = add_file c (folder_path lib prefix c) f s i.folders;
}
place lib prefix f s _ i = i

-- Whether the file is listed or counted.
pub is_under : Option (List Bytes) → Bool
is_under (some (c ∷ cs)) = true
is_under _ = false

-- One round of the loop; only a file that is listed or counted is asked for its status.
pub list_file : Paths → Bool → Handle → Torrent → Bytes → File → Items → Result Exception Items
unfolding place relative is_under file_status
list_file lib status h t prefix f i =
    let rest : Option (List Bytes) = relative (lib.components prefix) (lib.components f.path) in
    if is_under rest
    then file_status status h t f >>= (λ s. ok (place lib prefix f s rest i))
    else ok i

pub list_files :
    Paths → Bool → Handle → Torrent → Bytes → List File → Items → Result Exception Items
unfolding list_file
list_files lib status h t prefix [] i = ok i
list_files lib status h t prefix (f ∷ fs) i =
    list_file lib status h t prefix f i >>= list_files lib status h t prefix fs

pub folder_progress : FolderStatus → FolderStatus
folder_progress s = record s {
  progress = some (if ltb 0 s.total then percent (pos s.total_done) s.total else hundred);
}

pub with_progress : Folder → Folder
unfolding folder_progress
with_progress g = record g { status = Option.map folder_progress g.status }

-- The loop over `folderInfoList` at the end.
pub set_progress : Bool → Items → Items
unfolding with_progress
set_progress status i = if status then record i { folders = map with_progress i.folders } else i

-- "Normalize the prefix": a path has a filename if that is not empty.
pub normalize : Paths → Bytes → Bytes
normalize lib path =
    if not (is_empty (lib.filename path)) && bytes_eq (lib.filename path) (bytes ".")
    then lib.remove_filename path
    else path

pub data Answer : Type 0 where
  listed : Items → Answer
  -- 404, "Invalid folder provided"
  invalid_folder : Answer

pub answer : Bytes → Items → Answer
answer prefix_escaped i =
    if not (is_empty prefix_escaped) && (is_empty i.folders && is_empty i.files)
    then invalid_folder
    else listed i

module _ (iequals : Bytes → Bytes → Bool) (handle_of : Torrent → Handle) where
  pub torrent_items : Paths → Bytes → Bytes → Bool → Service → Result ApiException Answer
  unfolding normalize list_files set_progress answer
  torrent_items lib info_hash prefix_escaped status s = do
    unescaped ← unescape prefix_escaped
    t ← of_core (must_find_torrent iequals info_hash s)
    fs ← of_core (get_files t)
    i ← of_core (
        list_files lib status (handle_of t) t (normalize lib unescaped) fs
          (record { folders = []; files = [] }))
    ok (answer prefix_escaped (set_progress status i))
