-- ===== src/Mime.antt =====
-- The MIME type of an extension: src/utils/mime.cpp. The table is a `std::map` that keeps the first of
-- two entries with one key.
mod Entry
mod Application1
mod Application2
mod Application3
mod Application4
mod Application5
mod Media
mod Text
pub mod Types
mod Tests
use torrest_cpp.Prelude.{
  Option, none, some, List, [], ◌∷◌, ◌++◌, if◌then◌else◌, Bytes, bytes, bytes_eq,
}
use Application1.{application1}
use Application2.{application2}
use Application3.{application3}
use Application4.{application4}
use Application5.{application5}
use Media.{audio_to_message}
use Text.{model_to_video}

-- `mimes.find(pExtension)`
pub find_type : Bytes → List (Bytes × Bytes) → Option Bytes
find_type extension [] = none
find_type extension ((key, type) ∷ ms) =
    let rest = find_type extension ms in if bytes_eq key extension then some type else rest

pub get_mimes : List (Bytes × Bytes)
get_mimes =
    application1
    ++ (application2
        ++ (application3
            ++ (application4 ++ (application5 ++ (audio_to_message ++ model_to_video)))))

or_octet_stream : Option Bytes → Bytes
or_octet_stream none = bytes "application/octet-stream"
or_octet_stream (some type) = type

pub guess_mime_type : Bytes → Bytes
unfolding or_octet_stream
guess_mime_type extension = or_octet_stream (find_type extension get_mimes)
