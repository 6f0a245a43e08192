-- ===== src/Api/Items/Listing.antt =====
-- What the files and the folders under a folder add up to.
use torrest_cpp.Prelude.{
  ℕ, ◌+◌, ◌≡◌, ◌≢◌, ◌↔◌, inl, inr, Bool, true, false, Option, none, some, List, [], ◌∷◌, ◌++◌, ◌==◌,
  if◌then◌else◌, Bool-cases, length, get_or, Bytes, bytes_eq, bytes_eq_iff,
}
use torrest_cpp.Prelude.{ok}
use torrest_cpp.Bittorrent.Handle.{Handle}
use torrest_cpp.Bittorrent.File.{File}
use torrest_cpp.Bittorrent.File.Status.{FileInfo, FileStatus, Percentage, get_info}
use torrest_cpp.Bittorrent.Torrent.{Torrent}
use torrest_cpp.Api.Items.{Paths, FolderStatus, Folder, Items, file_status, relative}
use torrest_cpp.Api.Items.Folders.{find_folder, Distinct}

-- A path continues the prefix by what is left of it.
pub relative_iff : (ps cs r : List Bytes) → (relative ps cs ≡ some r) ↔ (cs ≡ ps ++ r)
unfolding relative
relative_iff [] cs r = (λ e. cc, λ e. cc)
relative_iff (p ∷ ps) [] r = (λ e. absurd (cc), λ e. absurd (cc))
relative_iff (p ∷ ps) (c ∷ cs) r = elim (Bool-cases (bytes_eq p c)) [
  | inl b ↦
      let same = (bytes_eq_iff p c).0 b in
      (
        λ e. let k = (relative_iff ps cs r).0 (rw b at e) in cc,
        λ e. let k : cs ≡ ps ++ r = cc in rw b ((relative_iff ps cs r).1 k),
      )
  | inr b ↦ (
    λ e. absurd (let k = rw b at e in cc),
    λ e. absurd (let k : p ≡ c = cc in let t = (bytes_eq_iff p c).1 k in cc),
  )
]

-- The path of the folder that a file below a folder is counted in.
abbrev pub folder_of : Paths → Bytes → Option (List Bytes) → Option Bytes
folder_of lib prefix (some (c ∷ d ∷ cs)) = some (lib.slash prefix c ++ lib.preferred_separator)
folder_of lib prefix _ = none

abbrev pub is_direct : Option (List Bytes) → Bool
is_direct (some (c ∷ [])) = true
is_direct _ = false

abbrev pub is_in : Bytes → Option Bytes → Bool
is_in p none = false
is_in p (some q) = bytes_eq q p

abbrev pub keep : {A : Type 0} → Bool → A → List A
keep true a = a ∷ []
keep false a = []

abbrev pub total : (File → ℕ) → List File → ℕ
total g [] = 0
total g (f ∷ fs) = g f + total g fs

-- What the handle says has come of a file.
abbrev pub done : Handle → File → ℕ
done h f = get_or h.file_progress f.index 0

abbrev pub if_wanted : (File → ℕ) → File → ℕ
if_wanted g f = if f.priority == 0 then 0 else g f

module _ (lib : Paths) (prefix : Bytes) where
  abbrev pub rest_of : File → Option (List Bytes)
  rest_of f = relative (lib.components prefix) (lib.components f.path)

  -- The files counted in the folder with the path `p`, in order.
  abbrev pub members : Bytes → List File → List File
  members p [] = []
  members p (f ∷ fs) = keep (is_in p (folder_of lib prefix (rest_of f))) f ++ members p fs

  -- The files listed.
  abbrev pub direct : List File → List File
  direct [] = []
  direct (f ∷ fs) = keep (is_direct (rest_of f)) f ++ direct fs

  -- The name of a folder is the element behind the prefix in the path of its first file.
  abbrev pub NamedAfter : Bytes → List File → Type 0
  NamedAfter name [] = ⊥
  NamedAfter name (f ∷ fs) = (d : Bytes) × (cs : List Bytes) × (rest_of f ≡ some (name ∷ d ∷ cs))

-- The sums of a folder's status over its files; `progress_of` is what its progress is.
pub record Sums (h : Handle) (progress_of : FolderStatus → Option Percentage) (ms : List File)
    (s : FolderStatus) : Type 0 where
  pub total_lem : s.total ≡ total (λ f. f.size) ms
  pub total_done_lem : s.total_done ≡ total (done h) ms
  pub total_wanted_lem : s.total_wanted ≡ total (if_wanted (λ f. f.size)) ms
  pub total_wanted_done_lem : s.total_wanted_done ≡ total (if_wanted (done h)) ms
  pub wanted_count_lem : s.wanted_count ≡ total (if_wanted (λ f. 1)) ms
  pub progress_lem : s.progress ≡ progress_of s

abbrev pub Statuses :
    Bool → Handle → (FolderStatus → Option Percentage) → List File → Option FolderStatus → Type 0
Statuses true h progress_of ms none = ⊥
Statuses true h progress_of ms (some s) = Sums h progress_of ms s
Statuses false h progress_of ms o = o ≡ none

-- A folder is there exactly if a file is counted in it, with the sums over its files.
pub data Summary (status : Bool) (h : Handle) (progress_of : FolderStatus → Option Percentage)
    (p : Bytes) (ms : List File) : Option Folder → Type 0 where
  no_files : ms ≡ [] → Summary status h progress_of p ms none
  counted :
      (g : Folder)
      → ms ≢ []
      → g.path ≡ p
      → g.length ≡ total (λ f. f.size) ms
      → g.file_count ≡ length ms
      → Statuses status h progress_of ms g.status
      → Summary status h progress_of p ms (some g)

-- The status of a listed file.
abbrev pub IsListedAs : Bool → Handle → Torrent → File → (FileInfo × Option FileStatus) → Type 0
IsListedAs status h t f (info, s) = (info ≡ get_info f) × (file_status status h t f ≡ ok s)

abbrev pub ListedAs :
    Bool → Handle → Torrent → List File → List (FileInfo × Option FileStatus) → Type 0
ListedAs status h t [] [] = Unit
ListedAs status h t (f ∷ fs) (x ∷ xs) = IsListedAs status h t f x × ListedAs status h t fs xs
ListedAs status h t _ _ = ⊥

-- The items are those of the files `fs`.
pub record IsListing (lib : Paths) (prefix : Bytes) (status : Bool) (h : Handle) (t : Torrent)
    (progress_of : FolderStatus → Option Percentage) (fs : List File) (i : Items) : Type 0 where
  pub folders :
      (p : Bytes)
      → Summary status h progress_of p (members lib prefix p fs) (find_folder p i.folders)
  pub names :
      (p : Bytes) (g : Folder)
      → find_folder p i.folders ≡ some g
      → NamedAfter lib prefix g.name (members lib prefix p fs)
  pub distinct : Distinct i.folders
  pub files : ListedAs status h t (direct lib prefix fs) i.files
