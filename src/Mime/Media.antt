-- ===== src/Mime/Media.antt =====
-- The entries of src/utils/mime.cpp from `.adp` to `.mime`.
use torrest_cpp.Prelude.{List, [], ◌∷◌, Bytes}
use torrest_cpp.Mime.Entry.{entry}

abbrev pub audio_to_message : List (Bytes × Bytes)
audio_to_message =
    entry ".adp" "audio/adpcm"
    ∷ entry ".au" "audio/basic"
    ∷ entry ".snd" "audio/basic"
    ∷ entry ".mid" "audio/midi"
    ∷ entry ".midi" "audio/midi"
    ∷ entry ".kar" "audio/midi"
    ∷ entry ".rmi" "audio/midi"
    ∷ entry ".m4a" "audio/mp4"
    ∷ entry ".mp4a" "audio/mp4"
    ∷ entry ".mpga" "audio/mpeg"
    ∷ entry ".mp2" "audio/mpeg"
    ∷ entry ".mp2a" "audio/mpeg"
    ∷ entry ".mp3" "audio/mpeg"
    ∷ entry ".m2a" "audio/mpeg"
    ∷ entry ".m3a" "audio/mpeg"
    ∷ entry ".oga" "audio/ogg"
    ∷ entry ".ogg" "audio/ogg"
    ∷ entry ".spx" "audio/ogg"
    ∷ entry ".opus" "audio/ogg"
    ∷ entry ".s3m" "audio/s3m"
    ∷ entry ".sil" "audio/silk"
    ∷ entry ".uva" "audio/vnd.dece.audio"
    ∷ entry ".uvva" "audio/vnd.dece.audio"
    ∷ entry ".eol" "audio/vnd.digital-winds"
    ∷ entry ".dra" "audio/vnd.dra"
    ∷ entry ".dts" "audio/vnd.dts"
    ∷ entry ".dtshd" "audio/vnd.dts.hd"
    ∷ entry ".lvp" "audio/vnd.lucent.voice"
    ∷ entry ".pya" "audio/vnd.ms-playready.media.pya"
    ∷ entry ".ecelp4800" "audio/vnd.nuera.ecelp4800"
    ∷ entry ".ecelp7470" "audio/vnd.nuera.ecelp7470"
    ∷ entry ".ecelp9600" "audio/vnd.nuera.ecelp9600"
    ∷ entry ".rip" "audio/vnd.rip"
    ∷ entry ".weba" "audio/webm"
    ∷ entry ".aac" "audio/x-aac"
    ∷ entry ".aif" "audio/x-aiff"
    ∷ entry ".aiff" "audio/x-aiff"
    ∷ entry ".aifc" "audio/x-aiff"
    ∷ entry ".caf" "audio/x-caf"
    ∷ entry ".flac" "audio/x-flac"
    ∷ entry ".mka" "audio/x-matroska"
    ∷ entry ".m3u" "audio/x-mpegurl"
    ∷ entry ".wax" "audio/x-ms-wax"
    ∷ entry ".wma" "audio/x-ms-wma"
    ∷ entry ".ram" "audio/x-pn-realaudio"
    ∷ entry ".ra" "audio/x-pn-realaudio"
    ∷ entry ".rmp" "audio/x-pn-realaudio-plugin"
    ∷ entry ".wav" "audio/x-wav"
    ∷ entry ".xm" "audio/xm"
    ∷ entry ".cdx" "chemical/x-cdx"
    ∷ entry ".cif" "chemical/x-cif"
    ∷ entry ".cmdf" "chemical/x-cmdf"
    ∷ entry ".cml" "chemical/x-cml"
    ∷ entry ".csml" "chemical/x-csml"
    ∷ entry ".xyz" "chemical/x-xyz"
    ∷ entry ".ttc" "font/collection"
    ∷ entry ".otf" "font/otf"
    ∷ entry ".ttf" "font/ttf"
    ∷ entry ".woff" "font/woff"
    ∷ entry ".woff2" "font/woff2"
    ∷ entry ".bmp" "image/bmp"
    ∷ entry ".cgm" "image/cgm"
    ∷ entry ".g3" "image/g3fax"
    ∷ entry ".gif" "image/gif"
    ∷ entry ".ief" "image/ief"
    ∷ entry ".jpeg" "image/jpeg"
    ∷ entry ".jpg" "image/jpeg"
    ∷ entry ".jpe" "image/jpeg"
    ∷ entry ".ktx" "image/ktx"
    ∷ entry ".png" "image/png"
    ∷ entry ".btif" "image/prs.btif"
    ∷ entry ".sgi" "image/sgi"
    ∷ entry ".svg" "image/svg+xml"
    ∷ entry ".svgz" "image/svg+xml"
    ∷ entry ".tiff" "image/tiff"
    ∷ entry ".tif" "image/tiff"
    ∷ entry ".psd" "image/vnd.adobe.photoshop"
    ∷ entry ".uvi" "image/vnd.dece.graphic"
    ∷ entry ".uvvi" "image/vnd.dece.graphic"
    ∷ entry ".uvg" "image/vnd.dece.graphic"
    ∷ entry ".uvvg" "image/vnd.dece.graphic"
    ∷ entry ".djvu" "image/vnd.djvu"
    ∷ entry ".djv" "image/vnd.djvu"
    ∷ entry ".sub" "image/vnd.dvb.subtitle"
    ∷ entry ".dwg" "image/vnd.dwg"
    ∷ entry ".dxf" "image/vnd.dxf"
    ∷ entry ".fbs" "image/vnd.fastbidsheet"
    ∷ entry ".fpx" "image/vnd.fpx"
    ∷ entry ".fst" "image/vnd.fst"
    ∷ entry ".mmr" "image/vnd.fujixerox.edmics-mmr"
    ∷ entry ".rlc" "image/vnd.fujixerox.edmics-rlc"
    ∷ entry ".mdi" "image/vnd.ms-modi"
    ∷ entry ".wdp" "image/vnd.ms-photo"
    ∷ entry ".npx" "image/vnd.net-fpx"
    ∷ entry ".wbmp" "image/vnd.wap.wbmp"
    ∷ entry ".xif" "image/vnd.xiff"
    ∷ entry ".webp" "image/webp"
    ∷ entry ".3ds" "image/x-3ds"
    ∷ entry ".ras" "image/x-cmu-raster"
    ∷ entry ".cmx" "image/x-cmx"
    ∷ entry ".fh" "image/x-freehand"
    ∷ entry ".fhc" "image/x-freehand"
    ∷ entry ".fh4" "image/x-freehand"
    ∷ entry ".fh5" "image/x-freehand"
    ∷ entry ".fh7" "image/x-freehand"
    ∷ entry ".ico" "image/x-icon"
    ∷ entry ".sid" "image/x-mrsid-image"
    ∷ entry ".pcx" "image/x-pcx"
    ∷ entry ".pic" "image/x-pict"
    ∷ entry ".pct" "image/x-pict"
    ∷ entry ".pnm" "image/x-portable-anymap"
    ∷ entry ".pbm" "image/x-portable-bitmap"
    ∷ entry ".pgm" "image/x-portable-graymap"
    ∷ entry ".ppm" "image/x-portable-pixmap"
    ∷ entry ".rgb" "image/x-rgb"
    ∷ entry ".tga" "image/x-tga"
    ∷ entry ".xbm" "image/x-xbitmap"
    ∷ entry ".xpm" "image/x-xpixmap"
    ∷ entry ".xwd" "image/x-xwindowdump"
    ∷ entry ".eml" "message/rfc822"
    ∷ entry ".mime" "message/rfc822"
    ∷ []
