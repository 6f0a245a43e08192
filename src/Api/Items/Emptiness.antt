-- ===== src/Api/Items/Emptiness.antt =====
-- A folder's items are empty where no file lies below it.
use torrest_cpp.Prelude.{
  ◌≡◌, refl, ◌↔◌, inl, inr, Bool, true, false, ◌&&◌, Option, none, some, List, [], ◌∷◌, ◌++◌,
  Bool-cases, Option-cases, Bytes, is_empty,
}
use torrest_cpp.Bittorrent.Handle.{Handle}
use torrest_cpp.Bittorrent.File.{File}
use torrest_cpp.Bittorrent.File.Status.{FileInfo, FileStatus, Percentage}
use torrest_cpp.Bittorrent.Torrent.{Torrent}
use torrest_cpp.Api.Items.{Paths, Folder, FolderStatus, Items, is_under}
use torrest_cpp.Api.Items.Folders.{find_folder, bytes_eq_refl}
use torrest_cpp.Api.Items.Listing.{
  rest_of, members, direct, Summary, no_files, counted, ListedAs, IsListing, is_direct, folder_of,
  keep, is_in,
}
use torrest_cpp.Api.Items.Progress.{share}

tail_nil : {A : Type 0} (xs ys : List A) → xs ++ ys ≡ [] → ys ≡ []
tail_nil [] ys e = e
tail_nil (x ∷ xs) ys e = absurd (cc)

module _ (lib : Paths) (prefix : Bytes) where
  -- No file is below the folder.
  abbrev pub AllOutside : List File → Type 0
  AllOutside [] = Unit
  AllOutside (f ∷ fs) = (is_under (rest_of lib prefix f) ≡ false) × AllOutside fs

  outside_direct : (r : Option (List Bytes)) → is_under r ≡ false → is_direct r ≡ false
  unfolding is_under
  outside_direct none e = refl
  outside_direct (some []) e = refl
  outside_direct (some (c ∷ [])) e = absurd (cc)
  outside_direct (some (c ∷ d ∷ cs)) e = refl

  outside_folder : (r : Option (List Bytes)) → is_under r ≡ false → folder_of lib prefix r ≡ none
  unfolding is_under
  outside_folder none e = refl
  outside_folder (some []) e = refl
  outside_folder (some (c ∷ [])) e = refl
  outside_folder (some (c ∷ d ∷ cs)) e = absurd (cc)

  neither :
      (r : Option (List Bytes))
      → is_direct r ≡ false
      → folder_of lib prefix r ≡ none
      → is_under r ≡ false
  unfolding is_under
  neither none e d = refl
  neither (some []) e d = refl
  neither (some (c ∷ [])) e d = absurd (cc)
  neither (some (c ∷ k ∷ cs)) e d = absurd (cc)

  no_direct : (fs : List File) → AllOutside fs → direct lib prefix fs ≡ []
  no_direct [] out = refl
  no_direct (f ∷ fs) out = rw (outside_direct (rest_of lib prefix f) out.0) (no_direct fs out.1)

  no_members : (p : Bytes) (fs : List File) → AllOutside fs → members lib prefix p fs ≡ []
  no_members p [] out = refl
  no_members p (f ∷ fs) out =
      rw (outside_folder (rest_of lib prefix f) out.0) (no_members p fs out.1)

  all_outside :
      (fs : List File)
      → direct lib prefix fs ≡ []
      → ((p : Bytes) → members lib prefix p fs ≡ [])
      → AllOutside fs
  all_outside [] d m = tt
  all_outside (f ∷ fs) d m =
      let r = rest_of lib prefix f in
      let rest =
        all_outside fs (tail_nil (keep (is_direct r) f) _ d)
          (λ p. tail_nil (keep (is_in p (folder_of lib prefix r)) f) _ (m p)) in
      elim (Bool-cases (is_direct r)) [
        | inl e ↦ absurd (let k = rw e at d in cc)
        | inr e ↦ elim (Option-cases (folder_of lib prefix r)) [
          | inl n ↦ (neither r e n, rest)
          | inr (q, n) ↦ absurd (let k = rw (n, bytes_eq_refl q) at (m q) in cc)
        ]
      ]

pub is_empty_iff : {A : Type 0} (xs : List A) → (is_empty xs ≡ true) ↔ (xs ≡ [])
is_empty_iff [] = (λ e. refl, λ e. refl)
is_empty_iff (x ∷ xs) = (λ e. absurd (cc), λ e. absurd (cc))

both_empty :
    {A B : Type 0} (xs : List A) (ys : List B)
    → ((is_empty xs && is_empty ys) ≡ true) ↔ ((xs ≡ []) × (ys ≡ []))
both_empty [] [] = (λ e. (refl, refl), λ e. refl)
both_empty [] (y ∷ ys) = (λ e. absurd (cc), λ e. absurd (let k = e.1 in cc))
both_empty (x ∷ xs) ys = (λ e. absurd (cc), λ e. absurd (let k = e.0 in cc))

no_folder : (gs : List Folder) → ((p : Bytes) → find_folder p gs ≡ none) → gs ≡ []
unfolding find_folder
no_folder [] none_found = refl
no_folder (g ∷ gs) none_found =
    absurd (let k = rw (bytes_eq_refl g.path) at (none_found g.path) in cc)

Summary-none :
    {status : Bool} {h : Handle} {progress_of : FolderStatus → Option Percentage} {p : Bytes}
    {ms : List File} {o : Option Folder}
    → Summary status h progress_of p ms o
    → (o ≡ none) ↔ (ms ≡ [])
Summary-none (no_files e) = (λ _. e, λ _. refl)
Summary-none (counted g some_file path size count sums) =
    (λ k. absurd (cc), λ k. absurd (some_file k))

module _ (lib : Paths) (prefix : Bytes) (status : Bool) (h : Handle) (t : Torrent) where
  ListedAs-none :
      (fs : List File) (xs : List (FileInfo × Option FileStatus))
      → ListedAs status h t fs xs
      → (xs ≡ []) ↔ (fs ≡ [])
  ListedAs-none [] [] z = (λ _. refl, λ _. refl)
  ListedAs-none [] (x ∷ xs) z = elim z [ ]
  ListedAs-none (f ∷ fs) [] z = elim z [ ]
  ListedAs-none (f ∷ fs) (x ∷ xs) z = (λ e. absurd (cc), λ e. absurd (cc))

  -- The answer is empty exactly if no file is below the folder.
  pub empty_iff :
      (fs : List File) (i : Items)
      → IsListing lib prefix status h t share fs i
      → ((is_empty i.folders && is_empty i.files) ≡ true) ↔ AllOutside lib prefix fs
  unfolding find_folder
  empty_iff fs i z = (
    λ e.
        let (folders_nil, files_nil) = (both_empty i.folders i.files).0 e in
        all_outside lib prefix fs
          ((ListedAs-none (direct lib prefix fs) i.files z.files).0 files_nil)
          (λ p. (Summary-none (z.folders p)).0 (rw folders_nil refl)),
    λ out. (both_empty i.folders i.files).1 (
      no_folder i.folders (λ p. (Summary-none (z.folders p)).1 (no_members lib prefix p fs out)),
      (ListedAs-none (direct lib prefix fs) i.files z.files).1 (no_direct lib prefix fs out),
    ),
  )
