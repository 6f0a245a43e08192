-- ===== src/Api/Items/Loop.antt =====
-- The loop over the files keeps the listing of those that it has met.
use torrest_cpp.Prelude.{
  ℕ, ◌≡◌, ◌≢◌, refl, sym, ap, subst, ◌∙◌, inl, inr, Bool, true, false, Option, none, some, List, [],
  ◌∷◌, ◌++◌, append-nil, append_assoc, Bool-cases, get_elem?, Bytes, bytes_eq, bytes_eq_iff,
}
use torrest_cpp.Prelude.{ok}
use torrest_cpp.Bittorrent.Handle.{Handle}
use torrest_cpp.Bittorrent.File.{File}
use torrest_cpp.Bittorrent.File.Status.{FileInfo, FileStatus, get_info}
use torrest_cpp.Bittorrent.Torrent.{Torrent}
use torrest_cpp.Api.Items.{
  Paths, Folder, Items, file_status, add_file, new_folder, add_to_folder, folder_path, place,
  is_under, list_file, list_files,
}
use torrest_cpp.Api.Items.Folders.{find_folder, grown, add_file-Added}
use torrest_cpp.Api.Items.Listing.{
  folder_of, is_direct, is_in, keep, rest_of, members, direct, Summary, IsListedAs, ListedAs,
  IsListing, NamedAfter, no_files,
}
use torrest_cpp.Api.Items.Sums.{Tells, file_status_known, unset, grown-Summary}

module _ (lib : Paths) (prefix : Bytes) where
  members-append :
      (p : Bytes) (fs : List File) (f : File)
      → members lib prefix p (fs ++ f ∷ [])
        ≡ members lib prefix p fs ++ keep (is_in p (folder_of lib prefix (rest_of lib prefix f))) f
  members-append p [] f = append-nil _
  members-append p (k ∷ fs) f =
      ap (λ l. keep (is_in p (folder_of lib prefix (rest_of lib prefix k))) k ++ l)
        (members-append p fs f)
      ∙ sym (append_assoc (keep (is_in p (folder_of lib prefix (rest_of lib prefix k))) k) _ _)

  direct-append :
      (fs : List File) (f : File)
      → direct lib prefix (fs ++ f ∷ [])
        ≡ direct lib prefix fs ++ keep (is_direct (rest_of lib prefix f)) f
  direct-append [] f = append-nil _
  direct-append (k ∷ fs) f =
      ap (λ l. keep (is_direct (rest_of lib prefix k)) k ++ l) (direct-append fs f)
      ∙ sym (append_assoc (keep (is_direct (rest_of lib prefix k)) k) _ _)

  member_more :
      (p : Bytes) (fs : List File) (f : File) (b : Bool)
      → is_in p (folder_of lib prefix (rest_of lib prefix f)) ≡ b
      → members lib prefix p (fs ++ f ∷ []) ≡ members lib prefix p fs ++ keep b f
  member_more p fs f b e = members-append p fs f ∙ ap (λ c. members lib prefix p fs ++ keep c f) e

  direct_more :
      (fs : List File) (f : File) (b : Bool)
      → is_direct (rest_of lib prefix f) ≡ b
      → direct lib prefix (fs ++ f ∷ []) ≡ direct lib prefix fs ++ keep b f
  direct_more fs f b e = direct-append fs f ∙ ap (λ c. direct lib prefix fs ++ keep c f) e

ListedAs-snoc :
    (status : Bool) (h : Handle) (t : Torrent) (fs : List File)
    (xs : List (FileInfo × Option FileStatus)) (f : File) (x : FileInfo × Option FileStatus)
    → ListedAs status h t fs xs
    → IsListedAs status h t f x
    → ListedAs status h t (fs ++ f ∷ []) (xs ++ x ∷ [])
ListedAs-snoc status h t [] [] f x all one = (one, tt)
ListedAs-snoc status h t [] (y ∷ xs) f x all one = elim all [ ]
ListedAs-snoc status h t (k ∷ fs) [] f x all one = elim all [ ]
ListedAs-snoc status h t (k ∷ fs) (y ∷ xs) f x all one =
    (all.0, ListedAs-snoc status h t fs xs f x all.1 one)

module _ (lib : Paths) (prefix : Bytes) (status : Bool) (h : Handle) (t : Torrent) where
  -- The items before the last round keep their folders where no file came to them.
  same_folder :
      (p : Bytes) (seen : List File) (f : File) (o : Option Folder)
      → is_in p (folder_of lib prefix (rest_of lib prefix f)) ≡ false
      → Summary status h unset p (members lib prefix p seen) o
      → Summary status h unset p (members lib prefix p (seen ++ f ∷ [])) o
  same_folder p seen f o e =
      subst (λ l. Summary status h unset p l o)
        (sym (member_more lib prefix p seen f false e ∙ append-nil _))

  same_files :
      (seen : List File) (f : File) (xs : List (FileInfo × Option FileStatus))
      → is_direct (rest_of lib prefix f) ≡ false
      → ListedAs status h t (direct lib prefix seen) xs
      → ListedAs status h t (direct lib prefix (seen ++ f ∷ [])) xs
  same_files seen f xs e =
      subst (λ l. ListedAs status h t l xs)
        (sym (direct_more lib prefix seen f false e ∙ append-nil _))

  folder_case :
      (seen : List File) (f : File) (s : Option FileStatus) (i : Items) (c : Bytes)
      → IsListing lib prefix status h t unset seen i
      → Tells status h f s
      → folder_of lib prefix (rest_of lib prefix f) ≡ some (folder_path lib prefix c)
      → (p : Bytes)
      → Summary status h unset p
          (members lib prefix p (seen ++ f ∷ []))
          (find_folder p (add_file c (folder_path lib prefix c) f s i.folders))
  folder_case seen f s i c z tells at p =
      let path = folder_path lib prefix c in
      let hs = add_file c path f s i.folders in
      let more = add_file-Added c path f s i.folders z.distinct in
      elim (Bool-cases (bytes_eq path p)) [
        | inr b ↦
            subst (Summary status h unset p (members lib prefix p (seen ++ f ∷ [])))
              (sym (more.others p (λ e. absurd (let k = (bytes_eq_iff path p).1 e in cc))))
              (same_folder p seen f (find_folder p i.folders) (rw at b) (z.folders p))
        | inl b ↦
            subst
              (λ q.
                Summary status h unset q (members lib prefix q (seen ++ f ∷ [])) (find_folder q hs))
              ((bytes_eq_iff path p).0 b)
              (subst (λ l. Summary status h unset path l (find_folder path hs))
                (sym (
                  member_more lib prefix path seen f true
                    (rw at ((bytes_eq_iff path path).1 refl))))
                (subst (Summary status h unset path (members lib prefix path seen ++ f ∷ []))
                  (sym more.here)
                  (grown-Summary status h c path (members lib prefix path seen) f s (z.folders path)
                    tells)))
      ]

  NamedAfter-append :
      (name : Bytes) (ms extra : List File)
      → NamedAfter lib prefix name ms
      → NamedAfter lib prefix name (ms ++ extra)
  NamedAfter-append name [] extra n = elim n [ ]
  NamedAfter-append name (f ∷ fs) extra n = n

  -- A round that counts no file in a folder, or counts one more, keeps its name.
  same_names :
      (seen : List File) (f : File) (p : Bytes) (g : Folder)
      → NamedAfter lib prefix g.name (members lib prefix p seen)
      → NamedAfter lib prefix g.name (members lib prefix p (seen ++ f ∷ []))
  same_names seen f p g n =
      subst (NamedAfter lib prefix g.name) (sym (members-append lib prefix p seen f))
        (NamedAfter-append g.name (members lib prefix p seen) _ n)

  -- The folder that a file is counted in was there before, with its name, or is named after the file.
  grown-NamedAfter :
      (c d : Bytes) (cs : List Bytes) (path : Bytes) (ms : List File) (f : File)
      (s : Option FileStatus) (o : Option Folder)
      → rest_of lib prefix f ≡ some (c ∷ d ∷ cs)
      → Summary status h unset path ms o
      → ((g : Folder) → o ≡ some g → NamedAfter lib prefix g.name ms)
      → NamedAfter lib prefix (grown c path f s o).name (ms ++ f ∷ [])
  unfolding new_folder add_to_folder
  grown-NamedAfter c d cs path ms f s none at (no_files nil) was =
      subst (λ l. NamedAfter lib prefix c (l ++ f ∷ [])) (sym nil) (d, cs, at)
  grown-NamedAfter c d cs path ms f s (some g) at summary was =
      NamedAfter-append g.name ms (f ∷ []) (was g refl)

  folder_names :
      (seen : List File) (f : File) (s : Option FileStatus) (i : Items) (c d : Bytes)
      (cs : List Bytes)
      → IsListing lib prefix status h t unset seen i
      → rest_of lib prefix f ≡ some (c ∷ d ∷ cs)
      → (p : Bytes) (g : Folder)
      → find_folder p (add_file c (folder_path lib prefix c) f s i.folders) ≡ some g
      → NamedAfter lib prefix g.name (members lib prefix p (seen ++ f ∷ []))
  unfolding folder_path
  folder_names seen f s i c d cs z at p g there =
      let path = folder_path lib prefix c in
      let more = add_file-Added c path f s i.folders z.distinct in
      elim (Bool-cases (bytes_eq path p)) [
        | inr b ↦
            let apart : path ≢ p = λ e. absurd (let k = (bytes_eq_iff path p).1 e in cc) in
            same_names seen f p g (z.names p g (sym (more.others p apart) ∙ there))
        | inl b ↦
            let same : path ≡ p = (bytes_eq_iff path p).0 b in
            let ms = members lib prefix path seen in
            let is : some (grown c path f s (find_folder path i.folders)) ≡ some g =
              sym more.here
              ∙ (ap (λ q. find_folder q (add_file c path f s i.folders)) same ∙ there) in
            let named =
              grown-NamedAfter c d cs path ms f s (find_folder path i.folders) at (z.folders path)
                (z.names path) in
            let grew : members lib prefix path (seen ++ f ∷ []) ≡ ms ++ f ∷ [] =
              member_more lib prefix path seen f true (rw at ((bytes_eq_iff path path).1 refl)) in
            let it : grown c path f s (find_folder path i.folders) ≡ g = cc is in
            subst (λ q. NamedAfter lib prefix g.name (members lib prefix q (seen ++ f ∷ []))) same
              (subst (NamedAfter lib prefix g.name) (sym grew)
                (subst (λ (k : Folder). NamedAfter lib prefix k.name (ms ++ f ∷ [])) it named))
      ]

  place-IsListing :
      (seen : List File) (f : File) (s : Option FileStatus) (i : Items) (r : Option (List Bytes))
      → IsListing lib prefix status h t unset seen i
      → Tells status h f s
      → file_status status h t f ≡ ok s
      → rest_of lib prefix f ≡ r
      → IsListing lib prefix status h t unset (seen ++ f ∷ []) (place lib prefix f s r i)
  unfolding place folder_path
  place-IsListing seen f s i none z tells ran at = record {
    folders = λ p. same_folder p seen f _ (rw at refl) (z.folders p);
    names = λ p g there. same_names seen f p g (z.names p g there);
    distinct = z.distinct;
    files = same_files seen f _ (rw at refl) z.files;
  }
  place-IsListing seen f s i (some []) z tells ran at = record {
    folders = λ p. same_folder p seen f _ (rw at refl) (z.folders p);
    names = λ p g there. same_names seen f p g (z.names p g there);
    distinct = z.distinct;
    files = same_files seen f _ (rw at refl) z.files;
  }
  place-IsListing seen f s i (some (c ∷ [])) z tells ran at = record {
    folders = λ p. same_folder p seen f _ (rw at refl) (z.folders p);
    names = λ p g there. same_names seen f p g (z.names p g there);
    distinct = z.distinct;
    files =
        subst (λ l. ListedAs status h t l (i.files ++ (get_info f, s) ∷ []))
          (sym (direct_more lib prefix seen f true (rw at refl)))
          (ListedAs-snoc status h t _ _ f (get_info f, s) z.files (refl, ran));
  }
  place-IsListing seen f s i (some (c ∷ d ∷ cs)) z tells ran at = record {
    folders = folder_case seen f s i c z tells (rw at refl);
    names = folder_names seen f s i c d cs z at;
    distinct = (add_file-Added c (folder_path lib prefix c) f s i.folders z.distinct).distinct;
    files = same_files seen f _ (rw at refl) z.files;
  }

-- The handle knows the progress of every file, if it is asked for.
abbrev pub AllKnown : Handle → List File → Type 0
AllKnown h [] = Unit
AllKnown h (f ∷ fs) = ((c : ℕ) × (get_elem? h.file_progress f.index ≡ some c)) × AllKnown h fs

module _ (lib : Paths) (prefix : Bytes) (status : Bool) (h : Handle) (t : Torrent) where
  list_file-place :
      (f : File) (s : Option FileStatus) (i : Items) (r : Option (List Bytes))
      → file_status status h t f ≡ ok s
      → rest_of lib prefix f ≡ r
      → list_file lib status h t prefix f i ≡ ok (place lib prefix f s r i)
  unfolding list_file is_under place
  list_file-place f s i none ran at = rw at refl
  list_file-place f s i (some []) ran at = rw at refl
  list_file-place f s i (some (c ∷ [])) ran at = rw (at, ran) refl
  list_file-place f s i (some (c ∷ d ∷ cs)) ran at = rw (at, ran) refl

  -- The loop ends, and its items are those of all files.
  pub list_files-IsListing :
      (seen fs : List File) (i : Items)
      → IsListing lib prefix status h t unset seen i
      → (status ≡ true → AllKnown h fs)
      → (j : Items) × (list_files lib status h t prefix fs i ≡ ok j)
        × IsListing lib prefix status h t unset (seen ++ fs) j
  unfolding list_files
  list_files-IsListing seen [] i z known =
      (i, refl, subst (λ l. IsListing lib prefix status h t unset l i) (sym (append-nil seen)) z)
  list_files-IsListing seen (f ∷ fs) i z known =
      let (s, ran, tells) = file_status_known status h t f (λ e. (known e).0) in
      let placed =
        place-IsListing lib prefix status h t seen f s i (rest_of lib prefix f) z tells ran refl in
      let (j, rest, done) =
        list_files-IsListing (seen ++ f ∷ []) fs (place lib prefix f s (rest_of lib prefix f) i)
          placed (λ e. (known e).1) in
      (
        j,
        rw (list_file-place f s i (rest_of lib prefix f) ran refl) rest,
        subst (λ l. IsListing lib prefix status h t unset l j) (append_assoc seen (f ∷ []) fs) done,
      )
