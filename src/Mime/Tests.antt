-- ===== src/Mime/Tests.antt =====
-- Guesses of MIME types.
use torrest_cpp.Prelude.{◌≡◌, refl, true, bytes}
use torrest_cpp.Mime.{find_type, get_mimes, or_octet_stream, guess_mime_type}
use torrest_cpp.Mime.Types.{is_media_type, guess_mime_type-is_media_type}

guess_mime_type_runs : guess_mime_type (bytes ".mkv") ≡ bytes "video/x-matroska"
unfolding guess_mime_type find_type get_mimes or_octet_stream
guess_mime_type_runs = refl

-- Of the two entries of this extension the first stands.
guess_mime_type_repeated : guess_mime_type (bytes ".sub") ≡ bytes "image/vnd.dvb.subtitle"
unfolding guess_mime_type find_type get_mimes or_octet_stream
guess_mime_type_repeated = refl

guess_mime_type-is_media_type_example : is_media_type (guess_mime_type (bytes ".mkv")) ≡ true
guess_mime_type-is_media_type_example = guess_mime_type-is_media_type (bytes ".mkv")
