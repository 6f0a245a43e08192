-- ===== src/Api/Errors.antt =====
-- What an exception becomes: src/api/error_handler.cpp, for the exceptions that reach oatpp, which
-- turns each into status 500 and its message before it calls the handler.
use torrest_cpp.Prelude.{ℕ, Bool, true, false, ◌==◌, if◌then◌else◌, Bytes, bytes}
use torrest_cpp.Prelude.{Result, ok, err}
use torrest_cpp.Bittorrent.Exceptions.{Exception, invalid_info_hash, invalid_file_index}
use torrest_cpp.Text.{unescape_string}

-- By class: `range` is range_parser's, `json` nlohmann's, `other` any other.
pub data ApiException : Type 0 where
  validation range json other : ApiException
  bittorrent : Exception → ApiException

-- An exception of the core on its way through the API.
abbrev pub of_core : {A : Type 0} → Result Exception A → Result ApiException A
of_core (ok a) = ok a
of_core (err e) = err (bittorrent e)

-- `utils::unescape_string`, whose exception is none that the error handler knows.
unfoldable pub unescape : Bytes → Result ApiException Bytes
unescape text = elim (unescape_string text) [ ok path ↦ ok path | err e ↦ err other ]

-- The `catch` clauses: the status, and whether the message is replaced by "Invalid json object".
pub caught : ApiException → ℕ × Bool
caught validation = (400, false)
caught json = (400, true)
caught (bittorrent invalid_info_hash) = (404, false)
caught (bittorrent invalid_file_index) = (404, false)
caught range = (416, false)
caught (bittorrent e) = (500, false)
caught other = (500, false)

-- `handleError`; `thrown` is the exception being handled.
pub handle_error : ApiException → ℕ → Bytes → ℕ × Bytes
unfolding caught
handle_error thrown status message =
    let (code, is_replaced) = caught thrown in
    if status == 500
    then (code, if is_replaced then bytes "Invalid json object" else message)
    else (status, message)
