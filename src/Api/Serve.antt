-- ===== src/Api/Serve.antt =====
-- `ServeController::serve` of src/api/controller/serve.h. What oatpp, range_parser and boost provide is
-- a record of parameters. oatpp takes a header for absent where `getHeader` is null.
pub mod Outcomes
mod Tests
use torrest_cpp.Prelude.{
  ℕ, ◌+◌, ◌-◌, Bool, not, ◌&&◌, Option, none, some, List, [], ◌∷◌, ◌++◌, if◌then◌else◌, length,
  Bytes, bytes, bytes_eq,
}
use torrest_cpp.Prelude.Int.{ℤ, pos, negsuc}
use torrest_cpp.Prelude.{Result, ok, ◌>>=◌, ◌>>◌}
use torrest_cpp.Bittorrent.Handle.{Handle, HandleCall}
use torrest_cpp.Bittorrent.File.{File, is_completed}
use torrest_cpp.Bittorrent.Reader.{Reader, beg, seek}
use torrest_cpp.Bittorrent.Service.{Service, must_find_torrent}
use torrest_cpp.Bittorrent.Torrent.{Torrent, get_file}
use torrest_cpp.Mime.{guess_mime_type}
use torrest_cpp.Api.Body.{Range, file_reader}
use torrest_cpp.Api.Errors.{of_core, ApiException}

-- `range_parser::HttpRange`
pub record HttpRange : Type 0 where
  pub unit : Bytes
  pub ranges : List Range

-- `parse_range` may throw; `handle_of` is `mHandle`; `read_ahead` is the read-ahead of a file's reader
-- in pieces and `timeout` the setting.
pub record Library : Type 0 where
  pub iequals : Bytes → Bytes → Bool
  pub handle_of : Torrent → Handle
  pub extension : Bytes → Bytes
  pub unit_bytes : Bytes
  pub parse_range : Bytes → ℕ → Result ApiException HttpRange
  pub content_range : Range → ℕ → Bytes
  pub read_ahead : File → ℕ
  pub timeout : ℕ

-- `message_body` is a DTO with a message.
pub data Body : Type 0 where
  empty_body : ℤ → Body
  reader_body : Reader → ℤ → Body
  multipart_body : File → List Range → Bytes → Body
  message_body : Bytes → Body

pub record Response : Type 0 where
  pub code : ℕ
  pub body : Body
  pub headers : List (Bytes × Bytes)

abbrev pub Answer : Type 0
Answer = Result ApiException (Response × List HandleCall)

-- `createDtoResponse(code, ErrorResponse::create(message))`
abbrev pub refuse : ℕ → Bytes → Answer
refuse code message = ok (record { code = code; body = message_body message; headers = [] }, [])

-- The body that is made where no range was asked for.
whole_body : Library → Bool → File → Body
whole_body lib is_head f =
    if is_head
    then empty_body (pos f.size)
    else reader_body (file_reader (lib.read_ahead f) lib.timeout f) (pos f.size)

-- The answer to a single range behind `seek`.
seek_body : Library → File → List (Bytes × Bytes) → Range → ℤ × Reader × List HandleCall → Answer
seek_body lib f headers range (negsuc n, r, cs) = refuse 416 (bytes "Invalid range start")
seek_body lib f headers range (pos n, r, cs) = ok (
  record {
    code = 206;
    body = reader_body r range.length;
    headers = headers ++ (bytes "Content-Range", lib.content_range range f.size) ∷ [];
  },
  cs,
)

-- By the number of ranges.
serve_ranges : Library → Bool → Handle → File → List (Bytes × Bytes) → Bytes → List Range → Answer
unfolding whole_body seek_body
serve_ranges lib is_head h f headers mime [] =
    ok (record { code = 200; body = whole_body lib is_head f; headers = headers }, [])
serve_ranges lib is_head h f headers mime (range ∷ []) =
    if is_head
    then ok (
      record {
        code = 206;
        body = empty_body range.length;
        headers = headers ++ (bytes "Content-Range", lib.content_range range f.size) ∷ [];
      },
      [],
    )
    else seek_body lib f headers range
        (seek h (file_reader (lib.read_ahead f) lib.timeout f) range.start beg)
serve_ranges lib is_head h f headers mime (range ∷ next ∷ ranges) = ok (
  record {
    code = 206;
    body = if is_head then empty_body (negsuc 0) else multipart_body f (range ∷ next ∷ ranges) mime;
    headers = headers;
  },
  [],
)

-- From the MIME type on.
serve_file : Library → Bool → Handle → File → Option Bytes → Answer
unfolding serve_ranges
serve_file lib is_head h f range_header =
    let mime : Bytes = guess_mime_type (lib.extension f.name) in
    let headers : List (Bytes × Bytes) =
      (bytes "Content-Type", mime) ∷ (bytes "Accept-Ranges", lib.unit_bytes) ∷ [] in
    elim range_header [
      | none ↦ serve_ranges lib is_head h f headers mime []
      | some header ↦ lib.parse_range header f.size >>= λ range.
          if bytes_eq range.unit lib.unit_bytes
          then serve_ranges lib is_head h f headers mime range.ranges
          else refuse 416 (bytes "Invalid range")
    ]

-- From the file on.
serve_from : Library → Bool → Torrent → File → Option Bytes → Answer
unfolding serve_file
serve_from lib is_head t f range_header =
    let h = lib.handle_of t in
    let answer = serve_file lib is_head h f range_header in
    if not is_head && t.is_paused
    then of_core (is_completed (some h) f)
      >>= (λ completed. if completed then answer else refuse 409 (bytes "Torrent is paused"))
    else answer

pub serve : Library → Bool → Service → Bytes → ℤ → Option Bytes → Answer
unfolding serve_from
serve lib is_head s info_hash index range_header =
    of_core (must_find_torrent lib.iequals info_hash s) >>= λ t.
    if not is_head && t.is_closed
    then refuse 409 (bytes "Torrent is closed")
    else of_core (get_file index t) >>= λ f. serve_from lib is_head t f range_header
