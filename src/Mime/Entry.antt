-- ===== src/Mime/Entry.antt =====
-- One entry of the table of MIME types.
use torrest_cpp.Prelude.{String, Bytes, bytes}

abbrev pub entry : String → String → Bytes × Bytes
entry extension type = (bytes extension, bytes type)
