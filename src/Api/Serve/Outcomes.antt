-- ===== src/Api/Serve/Outcomes.antt =====
-- How a request for a file is answered.
use torrest_cpp.Prelude.{
  ℕ, ◌≤◌, ◌≡◌, refl, sym, subst, ◌≢◌, ◌⊎◌, inl, inr, Bool, true, false, not, ◌&&◌, Option, none,
  some, List, [], ◌∷◌, ◌++◌, arith, if◌then◌else◌, Bool-cases, Option-cases, Bytes, bytes, bytes_eq,
  bytes_eq_iff,
}
use torrest_cpp.Prelude.Int.{ℤ, pos, negsuc, ◌≤ℤ◌}
use torrest_cpp.Prelude.{ok, err, Result-cases}
use torrest_cpp.Bittorrent.Handle.{Handle, HandleCall}
use torrest_cpp.Bittorrent.Exceptions.{Exception, invalid_info_hash}
use torrest_cpp.Bittorrent.File.{File, is_completed}
use torrest_cpp.Bittorrent.Reader.{Reader, beg, target, make_reader}
use torrest_cpp.Bittorrent.Reader.Seek.{Seeks, moved, refused, seek-Seeks}
use torrest_cpp.Bittorrent.Service.{Service, find_torrent, must_find_torrent}
use torrest_cpp.Bittorrent.Torrent.{Torrent, get_file}
use torrest_cpp.Mime.{guess_mime_type}
use torrest_cpp.Api.Body.{Range, file_reader}
use torrest_cpp.Api.Errors.{ApiException, bittorrent}
use torrest_cpp.Api.Serve.{
  HttpRange, Library, empty_body, reader_body, multipart_body, Answer, refuse, whole_body,
  seek_body, serve_ranges, serve_file, serve_from, serve,
}

-- The headers of every file.
abbrev pub file_headers : Library → File → List (Bytes × Bytes)
file_headers lib f =
    (bytes "Content-Type", guess_mime_type (lib.extension f.name))
    ∷ (bytes "Accept-Ranges", lib.unit_bytes)
    ∷ []

-- What ranges a request asks for: none of them for the whole file.
pub data Asks (lib : Library) (f : File) : Option Bytes → List Range → Type 0 where
  whole : Asks lib f none []
  ranged :
      (header : Bytes) (range : HttpRange)
      → lib.parse_range header f.size ≡ ok range
      → range.unit ≡ lib.unit_bytes
      → Asks lib f (some header) range.ranges

-- The answer to ranges of an open file.
pub data Ranges (lib : Library) (is_head : Bool) (f : File) : List Range → Answer → Type 0 where
  all_of_it : Ranges lib is_head f [] (
      ok (
        record {
          code = 200;
          body =
              if is_head
              then empty_body (pos f.size)
              else reader_body (file_reader (lib.read_ahead f) lib.timeout f) (pos f.size);
          headers = file_headers lib f;
        },
        [],
      ))
  described :
      (range : Range)
      → is_head ≡ true
      → Ranges lib is_head f (range ∷ []) (
          ok (
            record {
              code = 206;
              body = empty_body range.length;
              headers =
                  file_headers lib f
                  ++ (bytes "Content-Range", lib.content_range range f.size) ∷ [];
            },
            [],
          ))
  part :
      (range : Range) (start : ℕ) (cs : List HandleCall)
      → is_head ≡ false
      → range.start ≡ pos start
      → start ≤ f.size
      → Ranges lib is_head f (range ∷ []) (
          ok (
            record {
              code = 206;
              body =
                  reader_body
                    (record (file_reader (lib.read_ahead f) lib.timeout f) { pos = start })
                    range.length;
              headers =
                  file_headers lib f
                  ++ (bytes "Content-Range", lib.content_range range f.size) ∷ [];
            },
            cs,
          ))
  outside :
      (range : Range)
      → is_head ≡ false
      → ¬ ((pos 0 ≤ℤ range.start) × (range.start ≤ℤ pos f.size))
      → Ranges lib is_head f (range ∷ []) (refuse 416 (bytes "Invalid range start"))
  parts :
      (range next : Range) (ranges : List Range)
      → Ranges lib is_head f (range ∷ next ∷ ranges) (
          ok (
            record {
              code = 206;
              body =
                  if is_head
                  then empty_body (negsuc 0)
                  else multipart_body f
                      (range ∷ next ∷ ranges)
                      (guess_mime_type (lib.extension f.name));
              headers = file_headers lib f;
            },
            [],
          ))

-- How a request is answered, by the torrent, its state and the file.
pub data Serves (lib : Library) (is_head : Bool) (s : Service) (h : Bytes) (index : ℤ)
    (range_header : Option Bytes) : Answer → Type 0 where
  unknown_torrent :
      find_torrent lib.iequals h s.torrents ≡ none
      → Serves lib is_head s h index range_header (err (bittorrent invalid_info_hash))
  closed :
      (t : Torrent)
      → find_torrent lib.iequals h s.torrents ≡ some t
      → is_head ≡ false
      → t.is_closed ≡ true
      → Serves lib is_head s h index range_header (refuse 409 (bytes "Torrent is closed"))
  no_file :
      (t : Torrent) (e : Exception)
      → find_torrent lib.iequals h s.torrents ≡ some t
      → (not is_head && t.is_closed) ≡ false
      → get_file index t ≡ err e
      → Serves lib is_head s h index range_header (err (bittorrent e))
  no_progress :
      (t : Torrent) (f : File) (e : Exception)
      → find_torrent lib.iequals h s.torrents ≡ some t
      → get_file index t ≡ ok f
      → (not is_head && t.is_paused) ≡ true
      → is_completed (some (lib.handle_of t)) f ≡ err e
      → Serves lib is_head s h index range_header (err (bittorrent e))
  paused :
      (t : Torrent) (f : File)
      → find_torrent lib.iequals h s.torrents ≡ some t
      → get_file index t ≡ ok f
      → (not is_head && t.is_paused) ≡ true
      → is_completed (some (lib.handle_of t)) f ≡ ok false
      → Serves lib is_head s h index range_header (refuse 409 (bytes "Torrent is paused"))
  bad_header :
      (t : Torrent) (f : File) (header : Bytes) (e : ApiException)
      → find_torrent lib.iequals h s.torrents ≡ some t
      → get_file index t ≡ ok f
      → range_header ≡ some header
      → lib.parse_range header f.size ≡ err e
      → Serves lib is_head s h index range_header (err e)
  wrong_unit :
      (t : Torrent) (f : File) (header : Bytes) (range : HttpRange)
      → find_torrent lib.iequals h s.torrents ≡ some t
      → get_file index t ≡ ok f
      → range_header ≡ some header
      → lib.parse_range header f.size ≡ ok range
      → range.unit ≢ lib.unit_bytes
      → Serves lib is_head s h index range_header (refuse 416 (bytes "Invalid range"))
  served :
      (t : Torrent) (f : File) (ranges : List Range) (a : Answer)
      → find_torrent lib.iequals h s.torrents ≡ some t
      → get_file index t ≡ ok f
      → (not is_head && t.is_closed) ≡ false
      → ((not is_head && t.is_paused) ≡ false) ⊎ (is_completed (some (lib.handle_of t)) f ≡ ok true)
      → Asks lib f range_header ranges
      → Ranges lib is_head f ranges a
      → Serves lib is_head s h index range_header a

seek_body-Ranges :
    (lib : Library) (h : Handle) (f : File) (range : Range) (x : ℤ × Reader × List HandleCall)
    → Seeks h (file_reader (lib.read_ahead f) lib.timeout f) range.start x
    → Ranges lib false f (range ∷ []) (seek_body lib f (file_headers lib f) range x)
unfolding seek_body file_reader make_reader
seek_body-Ranges lib h f range x (moved off e le) = part range off _ refl e le
seek_body-Ranges lib h f range x (refused out) = outside range refl out

serve_ranges-Ranges :
    (lib : Library) (is_head : Bool) (h : Handle) (f : File) (ranges : List Range)
    → Ranges lib is_head f ranges (
        serve_ranges lib is_head h f
          (file_headers lib f)
          (guess_mime_type (lib.extension f.name))
          ranges)
unfolding serve_ranges whole_body target
serve_ranges-Ranges lib is_head h f [] = all_of_it
serve_ranges-Ranges lib true h f (range ∷ []) = described range refl
serve_ranges-Ranges lib false h f (range ∷ []) =
    seek_body-Ranges lib h f range _
      (seek-Seeks h (file_reader (lib.read_ahead f) lib.timeout f) range.start beg)
serve_ranges-Ranges lib is_head h f (range ∷ next ∷ ranges) = parts range next ranges

module _ (lib : Library) (is_head : Bool) (s : Service) (h : Bytes) (index : ℤ) where
  header_ruled :
      (header : Bytes) (t : Torrent) (f : File)
      → find_torrent lib.iequals h s.torrents ≡ some t
      → get_file index t ≡ ok f
      → (not is_head && t.is_closed) ≡ false
      → ((not is_head && t.is_paused) ≡ false) ⊎ (is_completed (some (lib.handle_of t)) f ≡ ok true)
      → Serves lib is_head s h index
          (some header)
          (serve_file lib is_head (lib.handle_of t) f (some header))
  unfolding serve_file
  header_ruled header t f found file is_open allowed =
      elim (Result-cases (lib.parse_range header f.size)) [
        | inl (range, parsed) ↦ elim (Bool-cases (bytes_eq range.unit lib.unit_bytes)) [
          | inl e ↦ subst (Serves lib is_head s h index (some header)) (sym (rw (parsed, e) refl)) (
              served t f range.ranges _ found file is_open allowed
                (ranged header range parsed ((bytes_eq_iff range.unit lib.unit_bytes).0 e))
                (serve_ranges-Ranges lib is_head (lib.handle_of t) f range.ranges))
          | inr e ↦ subst (Serves lib is_head s h index (some header)) (sym (rw (parsed, e) refl)) (
              wrong_unit t f header range found file refl parsed
                (λ same. let k = (bytes_eq_iff range.unit lib.unit_bytes).1 same in cc))
        ]
        | inr (e, bad) ↦
            subst (Serves lib is_head s h index (some header)) (sym (rw bad refl))
              (bad_header t f header e found file refl bad)
      ]

  file_served :
      (range_header : Option Bytes) (t : Torrent) (f : File)
      → find_torrent lib.iequals h s.torrents ≡ some t
      → get_file index t ≡ ok f
      → (not is_head && t.is_closed) ≡ false
      → ((not is_head && t.is_paused) ≡ false) ⊎ (is_completed (some (lib.handle_of t)) f ≡ ok true)
      → Serves lib is_head s h index range_header
          (serve_file lib is_head (lib.handle_of t) f range_header)
  unfolding serve_file
  file_served none t f found file is_open allowed =
      served t f [] _ found file is_open allowed whole
        (serve_ranges-Ranges lib is_head (lib.handle_of t) f [])
  file_served (some header) t f found file is_open allowed =
      header_ruled header t f found file is_open allowed

  pause_ruled :
      (range_header : Option Bytes) (t : Torrent) (f : File)
      → find_torrent lib.iequals h s.torrents ≡ some t
      → get_file index t ≡ ok f
      → (not is_head && t.is_closed) ≡ false
      → Serves lib is_head s h index range_header (serve_from lib is_head t f range_header)
  unfolding serve_from
  pause_ruled range_header t f found file is_open = elim (Bool-cases (not is_head && t.is_paused)) [
    | inr e ↦
        subst (Serves lib is_head s h index range_header) (sym (rw e refl))
          (file_served range_header t f found file is_open (inl e))
    | inl e ↦ elim (Result-cases (is_completed (some (lib.handle_of t)) f)) [
      | inr (x, bad) ↦
          subst (Serves lib is_head s h index range_header) (sym (rw (e, bad) refl))
            (no_progress t f x found file e bad)
      | inl (true, c) ↦
          subst (Serves lib is_head s h index range_header) (sym (rw (e, c) refl))
            (file_served range_header t f found file is_open (inr c))
      | inl (false, c) ↦
          subst (Serves lib is_head s h index range_header) (sym (rw (e, c) refl))
            (paused t f found file e c)
    ]
  ]

  torrent_ruled :
      (range_header : Option Bytes) (t : Torrent)
      → find_torrent lib.iequals h s.torrents ≡ some t
      → Serves lib is_head s h index range_header (serve lib is_head s h index range_header)
  unfolding serve must_find_torrent
  torrent_ruled range_header t found = elim (Bool-cases (not is_head && t.is_closed)) [
    | inl e ↦
        subst (Serves lib is_head s h index range_header) (sym (rw (found, e) refl))
          (closed t found (ground arith) (ground arith))
    | inr e ↦ elim (Result-cases (get_file index t)) [
      | inl (f, file) ↦
          subst (Serves lib is_head s h index range_header) (sym (rw (found, e, file) refl))
            (pause_ruled range_header t f found file e)
      | inr (x, bad) ↦
          subst (Serves lib is_head s h index range_header) (sym (rw (found, e, bad) refl))
            (no_file t x found e bad)
    ]
  ]

-- Every answer to a request for a file: an error for an unknown torrent or file, or where the progress
-- of the file is not known, 409 for a GET of a closed torrent or of an unfinished file of a paused one,
-- the parser's error for a header that it refuses, 416 for a unit other than bytes or for a single range
-- that does not start in the file, and otherwise 200 with the whole file or 206 with what was asked for,
-- a reader standing at the start of a single range. A HEAD is answered alike, without a reader.
pub serve-Serves :
    (lib : Library) (is_head : Bool) (s : Service) (h : Bytes) (index : ℤ)
    (range_header : Option Bytes)
    → Serves lib is_head s h index range_header (serve lib is_head s h index range_header)
unfolding serve must_find_torrent
serve-Serves lib is_head s h index range_header =
    elim (Option-cases (find_torrent lib.iequals h s.torrents)) [
      | inl none_found ↦
          subst (Serves lib is_head s h index range_header) (sym (rw none_found refl))
            (unknown_torrent none_found)
      | inr (t, found) ↦ torrent_ruled lib is_head s h index range_header t found
    ]
