-- ===== src/Api/Items/Outcomes.antt =====
-- How a request for the items of a folder is answered.
use torrest_cpp.Prelude.{
  ◌≡◌, refl, sym, subst, ◌≢◌, ◌↔◌, ◌⊎◌, inl, inr, Bool, true, false, ◌&&◌, none, some, List, [],
  ◌++◌, not, Bool-cases, Option-cases, Bytes, bytes, bytes_eq, bytes_eq_iff, is_empty,
}
use torrest_cpp.Prelude.{Result, ok, err, Result-cases}
use torrest_cpp.Bittorrent.Exceptions.{no_metadata, invalid_info_hash}
use torrest_cpp.Bittorrent.Handle.{Handle}
use torrest_cpp.Bittorrent.File.{File}
use torrest_cpp.Bittorrent.Torrent.{Torrent}
use torrest_cpp.Bittorrent.Service.{Service, find_torrent, must_find_torrent}
use torrest_cpp.Api.Errors.{ApiException, bittorrent, unescape}
use torrest_cpp.Api.Items.{
  Paths, Items, set_progress, normalize, Answer, listed, invalid_folder, answer, torrent_items,
}
use torrest_cpp.Api.Items.Folders.{find_folder}
use torrest_cpp.Api.Items.Listing.{rest_of, no_files, IsListing, relative_iff}
use torrest_cpp.Api.Items.Loop.{AllKnown, list_files-IsListing}
use torrest_cpp.Api.Items.Progress.{share, set_progress-IsListing}
use torrest_cpp.Api.Items.Emptiness.{AllOutside, is_empty_iff, empty_iff}
use torrest_cpp.Bittorrent.Torrent.Known.{get_files_known, get_files_unknown}

-- The prefix that a path means: a last element `.` is taken off, and nothing else.
pub data Normalized (lib : Paths) (path : Bytes) : Bytes → Type 0 where
  without_dot : lib.filename path ≡ bytes "." → Normalized lib path (lib.remove_filename path)
  as_given : lib.filename path ≢ bytes "." → Normalized lib path path

&&_false : (b : Bool) → (b && false) ≡ false
&&_false true = refl
&&_false false = refl

normalize-Normalized : (lib : Paths) (path : Bytes) → Normalized lib path (normalize lib path)
unfolding normalize
normalize-Normalized lib path = elim (Bool-cases (bytes_eq (lib.filename path) (bytes "."))) [
  | inl b ↦
      let same = (bytes_eq_iff (lib.filename path) (bytes ".")).0 b in
      subst (Normalized lib path) (sym (rw (b, same) refl)) (without_dot same)
  | inr b ↦
      subst (Normalized lib path) (sym (rw (b, &&_false (not (is_empty (lib.filename path)))) refl))
        (as_given (λ e. absurd (let k = (bytes_eq_iff (lib.filename path) (bytes ".")).1 e in cc)))
]

module _ (iequals : Bytes → Bytes → Bool) (handle_of : Torrent → Handle) (lib : Paths)
    (info_hash prefix_escaped : Bytes) (status : Bool) (s : Service) where
  -- The answers, by the folder's path and the torrent.
  pub data Lists : Result ApiException Answer → Type 0 where
    bad_escape : (e : ApiException) → unescape prefix_escaped ≡ err e → Lists (err e)
    unknown_torrent :
        find_torrent iequals info_hash s.torrents ≡ none
        → Lists (err (bittorrent invalid_info_hash))
    without_metadata :
        (t : Torrent)
        → find_torrent iequals info_hash s.torrents ≡ some t
        → t.has_metadata ≡ false
        → Lists (err (bittorrent no_metadata))
    empty :
        (path prefix : Bytes) (t : Torrent)
        → unescape prefix_escaped ≡ ok path
        → Normalized lib path prefix
        → find_torrent iequals info_hash s.torrents ≡ some t
        → t.has_metadata ≡ true
        → prefix_escaped ≢ []
        → AllOutside lib prefix t.files
        → Lists (ok invalid_folder)
    found :
        (path prefix : Bytes) (t : Torrent) (i : Items)
        → unescape prefix_escaped ≡ ok path
        → Normalized lib path prefix
        → find_torrent iequals info_hash s.torrents ≡ some t
        → t.has_metadata ≡ true
        → (prefix_escaped ≡ []) ⊎ ¬ (AllOutside lib prefix t.files)
        → IsListing lib prefix status (handle_of t) t share t.files i
        → Lists (ok (listed i))

  answer_lem :
      (path : Bytes) (t : Torrent) (i : Items)
      → unescape prefix_escaped ≡ ok path
      → find_torrent iequals info_hash s.torrents ≡ some t
      → t.has_metadata ≡ true
      → IsListing lib (normalize lib path) status (handle_of t) t share t.files i
      → Lists (ok (answer prefix_escaped i))
  unfolding answer
  answer_lem path t i text there meta z =
      let none_under = empty_iff lib (normalize lib path) status (handle_of t) t t.files i z in
      elim (Bool-cases (is_empty prefix_escaped)) [
        | inl raw ↦
            subst (λ a. Lists (ok a)) (sym (rw raw refl))
              (found path (normalize lib path) t i text (normalize-Normalized lib path) there meta
                (inl ((is_empty_iff prefix_escaped).0 raw)) z)
        | inr raw ↦ elim (Bool-cases (is_empty i.folders && is_empty i.files)) [
          | inl e ↦
              subst (λ a. Lists (ok a)) (sym (rw (raw, e) refl))
                (empty path (normalize lib path) t text (normalize-Normalized lib path) there meta
                  (λ nil. let k = (is_empty_iff prefix_escaped).1 nil in cc) (none_under.0 e))
          | inr e ↦
              subst (λ a. Lists (ok a)) (sym (rw (raw, e) refl))
                (found path (normalize lib path) t i text (normalize-Normalized lib path) there meta
                  (inr (λ out. let k = none_under.1 out in cc)) z)
        ]
      ]

  files_lem :
      (path : Bytes) (t : Torrent)
      → unescape prefix_escaped ≡ ok path
      → find_torrent iequals info_hash s.torrents ≡ some t
      → t.has_metadata ≡ true
      → (status ≡ true → AllKnown (handle_of t) t.files)
      → Lists (torrent_items iequals handle_of lib info_hash prefix_escaped status s)
  unfolding torrent_items must_find_torrent find_folder
  files_lem path t text there meta known =
      let start : Items = record { folders = []; files = [] } in
      let prefix = normalize lib path in
      let (j, ran, z) =
        list_files-IsListing lib prefix status (handle_of t) t [] t.files start
          (record {
            folders = λ p. no_files refl;
            names = λ p g there. absurd (cc there);
            distinct = tt;
            files = tt;
          })
          known in
      subst Lists (sym (rw (text, there, get_files_known t meta, ran) refl)) (
        answer_lem path t (set_progress status j) text there meta
          (set_progress-IsListing lib prefix status (handle_of t) t t.files j z))

  -- The items of a folder are answered with exactly the files that lie directly in it, in order, and one
  -- folder for each element that leads to deeper files, under that element's name and the path of the
  -- prefix, the element and a separator, with the number and the sums over those files, also of the
  -- wanted ones and of what has come. A last element `.` of the prefix is taken off first. It is 404 where a folder is asked for under which no file
  -- lies, and errors for a text that is no escaped path, an unknown torrent and one without metadata. A
  -- file lies under the folder where its path's elements continue the folder's. If the status is asked
  -- for, the handle knows the progress of the files.
  pub torrent_items-Lists :
      ((t : Torrent)
        → find_torrent iequals info_hash s.torrents ≡ some t
        → status ≡ true
        → AllKnown (handle_of t) t.files)
      → Lists (torrent_items iequals handle_of lib info_hash prefix_escaped status s)
        × ((prefix : Bytes) (f : File) (r : List Bytes)
            → (rest_of lib prefix f ≡ some r)
              ↔ (lib.components f.path ≡ lib.components prefix ++ r))
  unfolding torrent_items must_find_torrent
  torrent_items-Lists known = (
    elim (Result-cases (unescape prefix_escaped)) [
      | inr (e, bad) ↦ subst Lists (sym (rw bad refl)) (bad_escape e bad)
      | inl (path, text) ↦ elim (Option-cases (find_torrent iequals info_hash s.torrents)) [
        | inl gone ↦ subst Lists (sym (rw (text, gone) refl)) (unknown_torrent gone)
        | inr (t, there) ↦ elim (Bool-cases t.has_metadata) [
          | inr unknown ↦
              subst Lists (sym (rw (text, there, get_files_unknown t unknown) refl))
                (without_metadata t there unknown)
          | inl meta ↦ files_lem path t text there meta (known t there)
        ]
      ]
    ],
    λ prefix f r. relative_iff (lib.components prefix) (lib.components f.path) r,
  )
