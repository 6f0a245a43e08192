-- ===== src/Api/Multipart.antt =====
-- The parts of an answer to several ranges: `Multipart` of src/api/mime/multipart.cpp. `content_range` is
-- range_parser's.
pub mod Parts
mod Tests
use torrest_cpp.Prelude.{ℕ, suc, ◌-◌, Option, none, some, List, [], ◌∷◌, get_elem?, Bytes, bytes}
use torrest_cpp.Bittorrent.File.{File}
use torrest_cpp.Api.Body.{Range}

pub record Multipart : Type 0 where
  pub file : File
  pub ranges : List Range
  pub mime : Bytes
  pub next_range : ℕ

-- A part with the range that its `RangeResource` reads.
pub record Part : Type 0 where
  pub headers : List (Bytes × Bytes)
  pub file : File
  pub range : Range

pub make_multipart : File → List Range → Bytes → Multipart
make_multipart file ranges mime = record {
  file = file;
  ranges = ranges;
  mime = mime;
  next_range = 0;
}

pub make_part : (Range → ℕ → Bytes) → Multipart → Range → Part
make_part content_range m range = record {
  headers =
      (bytes "Content-Type", m.mime)
      ∷ (bytes "Content-Range", content_range range m.file.size)
      ∷ [];
  file = m.file;
  range = range;
}

-- `readNextPart`; there is a range at the index as long as that is below their number.
pub read_next_part : (Range → ℕ → Bytes) → Multipart → Option Part × Multipart
unfolding make_part
read_next_part content_range m = elim (get_elem? m.ranges m.next_range) [
  | none ↦ (none, m)
  | some range ↦
      (some (make_part content_range m range), record m { next_range = suc m.next_range })
]
