-- ===== src/Api/Items/Progress.antt =====
-- The progress of the folders is set last, and keeps the rest of the listing.
use torrest_cpp.Prelude.{
  ◌≡◌, refl, sym, subst, ◌∙◌, inl, inr, Bool, true, false, Option, none, some, List, [], ◌∷◌, map,
  ltb, if◌then◌else◌, Bool-cases, Bytes, bytes_eq,
}
use torrest_cpp.Prelude.Int.{pos}
use mathlib.Core.Option
use torrest_cpp.Bittorrent.Handle.{Handle}
use torrest_cpp.Bittorrent.File.{File}
use torrest_cpp.Bittorrent.File.Status.{Percentage, hundred, percent}
use torrest_cpp.Bittorrent.Torrent.{Torrent}
use torrest_cpp.Api.Items.{
  Paths, FolderStatus, Folder, Items, folder_progress, with_progress, set_progress,
}
use torrest_cpp.Api.Items.Folders.{find_folder, Distinct}
use torrest_cpp.Api.Items.Listing.{
  Statuses, Summary, no_files, counted, IsListing, NamedAfter, members,
}
use torrest_cpp.Api.Items.Sums.{unset}

-- The share that has come, and 100 of nothing.
abbrev pub share : FolderStatus → Option Percentage
share s = some (if ltb 0 s.total then percent (pos s.total_done) s.total else hundred)

find_folder-with_progress :
    (p : Bytes) (gs : List Folder)
    → find_folder p (map with_progress gs) ≡ Option.map with_progress (find_folder p gs)
unfolding find_folder with_progress
find_folder-with_progress p [] = refl
find_folder-with_progress p (g ∷ gs) = elim (Bool-cases (bytes_eq g.path p)) [
  | inl b ↦ rw b refl
  | inr b ↦ rw b (find_folder-with_progress p gs)
]

Distinct-with_progress : (gs : List Folder) → Distinct gs → Distinct (map with_progress gs)
unfolding find_folder with_progress
Distinct-with_progress [] d = tt
Distinct-with_progress (g ∷ gs) d =
    (find_folder-with_progress g.path gs ∙ rw d.0 refl, Distinct-with_progress gs d.1)

set-Statuses :
    (h : Handle) (ms : List File) (o : Option FolderStatus)
    → Statuses true h unset ms o
    → Statuses true h share ms (Option.map folder_progress o)
unfolding folder_progress
set-Statuses h ms none z = elim z [ ]
set-Statuses h ms (some s) z = record {
  total_lem = z.total_lem;
  total_done_lem = z.total_done_lem;
  total_wanted_lem = z.total_wanted_lem;
  total_wanted_done_lem = z.total_wanted_done_lem;
  wanted_count_lem = z.wanted_count_lem;
  progress_lem = refl;
}

set-Summary :
    (h : Handle) (p : Bytes) (ms : List File) (o : Option Folder)
    → Summary true h unset p ms o
    → Summary true h share p ms (Option.map with_progress o)
unfolding with_progress
set-Summary h p ms none (no_files e) = no_files e
set-Summary h p ms (some _) (counted g some_file path size count sums) =
    counted _ some_file path size count (set-Statuses h ms g.status sums)

kept-Summary :
    (h : Handle) (p : Bytes) (ms : List File) (o : Option Folder)
    → Summary false h unset p ms o
    → Summary false h share p ms o
kept-Summary h p ms none (no_files e) = no_files e
kept-Summary h p ms (some _) (counted g some_file path size count sums) =
    counted g some_file path size count sums

set-names :
    (lib : Paths) (prefix : Bytes) (fs : List File) (p : Bytes) (g : Folder) (o : Option Folder)
    → ((k : Folder) → o ≡ some k → NamedAfter lib prefix k.name (members lib prefix p fs))
    → Option.map with_progress o ≡ some g
    → NamedAfter lib prefix g.name (members lib prefix p fs)
unfolding with_progress
set-names lib prefix fs p g none was e = absurd (cc)
set-names lib prefix fs p g (some k) was e =
    let it : with_progress k ≡ g = cc e in
    subst (λ (r : Folder). NamedAfter lib prefix r.name (members lib prefix p fs)) it (was k refl)

pub set_progress-IsListing :
    (lib : Paths) (prefix : Bytes) (status : Bool) (h : Handle) (t : Torrent) (fs : List File)
    (i : Items)
    → IsListing lib prefix status h t unset fs i
    → IsListing lib prefix status h t share fs (set_progress status i)
unfolding set_progress
set_progress-IsListing lib prefix true h t fs i z = record {
  folders = λ p.
      subst (Summary true h share p (members lib prefix p fs))
        (sym (find_folder-with_progress p i.folders)) (set-Summary h p _ _ (z.folders p));
  names = λ p g there.
      set-names lib prefix fs p g (find_folder p i.folders) (z.names p)
        (sym (find_folder-with_progress p i.folders) ∙ there);
  distinct = Distinct-with_progress i.folders z.distinct;
  files = z.files;
}
set_progress-IsListing lib prefix false h t fs i z = record {
  folders = λ p. kept-Summary h p _ _ (z.folders p);
  names = z.names;
  distinct = z.distinct;
  files = z.files;
}
