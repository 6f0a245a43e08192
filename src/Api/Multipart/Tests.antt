-- ===== src/Api/Multipart/Tests.antt =====
-- A multipart answer of two ranges.
use torrest_cpp.Prelude.{false, List, [], ◌∷◌, bytes}
use torrest_cpp.Prelude.Int.{pos}
use torrest_cpp.Bittorrent.File.{File}
use torrest_cpp.Api.Body.{Range}
use torrest_cpp.Api.Multipart.{Multipart, make_multipart}
use torrest_cpp.Api.Multipart.Parts.{Reads, expected, make_multipart-Reads}

abbrev file : File
file = record {
  index = 0;
  offset = 0;
  size = 50;
  path = bytes "a";
  name = bytes "a";
  piece_length = 4;
  priority = 4;
  is_buffering = false;
  buffer_pieces = [];
  buffer_size = 0;
}

abbrev ranges : List Range
ranges = record { start = pos 1; length = pos 2 } ∷ record { start = pos 7; length = pos 3 } ∷ []

make_multipart-Reads_example :
    (m2 : Multipart) × Reads
      (λ r size. bytes "bytes")
      3
      (make_multipart file ranges (bytes "video/mp4"))
      (expected (λ r size. bytes "bytes") 3 file (bytes "video/mp4") ranges)
      m2
make_multipart-Reads_example =
    make_multipart-Reads (λ r size. bytes "bytes") 3 file ranges (bytes "video/mp4")
