-- ===== src/Mime/Text.antt =====
-- The entries of src/utils/mime.cpp from `.igs` to `.ice`.
use torrest_cpp.Prelude.{List, [], ◌∷◌, Bytes}
use torrest_cpp.Mime.Entry.{entry}

abbrev pub model_to_video : List (Bytes × Bytes)
model_to_video =
    entry ".igs" "model/iges"
    ∷ entry ".iges" "model/iges"
    ∷ entry ".msh" "model/mesh"
    ∷ entry ".mesh" "model/mesh"
    ∷ entry ".silo" "model/mesh"
    ∷ entry ".dae" "model/vnd.collada+xml"
    ∷ entry ".dwf" "model/vnd.dwf"
    ∷ entry ".gdl" "model/vnd.gdl"
    ∷ entry ".gtw" "model/vnd.gtw"
    ∷ entry ".mts" "model/vnd.mts"
    ∷ entry ".vtu" "model/vnd.vtu"
    ∷ entry ".wrl" "model/vrml"
    ∷ entry ".vrml" "model/vrml"
    ∷ entry ".x3db" "model/x3d+binary"
    ∷ entry ".x3dbz" "model/x3d+binary"
    ∷ entry ".x3dv" "model/x3d+vrml"
    ∷ entry ".x3dvz" "model/x3d+vrml"
    ∷ entry ".x3d" "model/x3d+xml"
    ∷ entry ".x3dz" "model/x3d+xml"
    ∷ entry ".appcache" "text/cache-manifest"
    ∷ entry ".ics" "text/calendar"
    ∷ entry ".ifb" "text/calendar"
    ∷ entry ".css" "text/css"
    ∷ entry ".csv" "text/csv"
    ∷ entry ".html" "text/html"
    ∷ entry ".htm" "text/html"
    ∷ entry ".n3" "text/n3"
    ∷ entry ".txt" "text/plain"
    ∷ entry ".text" "text/plain"
    ∷ entry ".conf" "text/plain"
    ∷ entry ".def" "text/plain"
    ∷ entry ".list" "text/plain"
    ∷ entry ".log" "text/plain"
    ∷ entry ".in" "text/plain"
    ∷ entry ".dsc" "text/prs.lines.tag"
    ∷ entry ".rtx" "text/richtext"
    ∷ entry ".sgml" "text/sgml"
    ∷ entry ".sgm" "text/sgml"
    ∷ entry ".tsv" "text/tab-separated-values"
    ∷ entry ".t" "text/troff"
    ∷ entry ".tr" "text/troff"
    ∷ entry ".roff" "text/troff"
    ∷ entry ".man" "text/troff"
    ∷ entry ".me" "text/troff"
    ∷ entry ".ms" "text/troff"
    ∷ entry ".ttl" "text/turtle"
    ∷ entry ".uri" "text/uri-list"
    ∷ entry ".uris" "text/uri-list"
    ∷ entry ".urls" "text/uri-list"
    ∷ entry ".vcard" "text/vcard"
    ∷ entry ".curl" "text/vnd.curl"
    ∷ entry ".dcurl" "text/vnd.curl.dcurl"
    ∷ entry ".mcurl" "text/vnd.curl.mcurl"
    ∷ entry ".scurl" "text/vnd.curl.scurl"
    ∷ entry ".sub" "text/vnd.dvb.subtitle"
    ∷ entry ".fly" "text/vnd.fly"
    ∷ entry ".flx" "text/vnd.fmi.flexstor"
    ∷ entry ".gv" "text/vnd.graphviz"
    ∷ entry ".3dml" "text/vnd.in3d.3dml"
    ∷ entry ".spot" "text/vnd.in3d.spot"
    ∷ entry ".jad" "text/vnd.sun.j2me.app-descriptor"
    ∷ entry ".wml" "text/vnd.wap.wml"
    ∷ entry ".wmls" "text/vnd.wap.wmlscript"
    ∷ entry ".s" "text/x-asm"
    ∷ entry ".asm" "text/x-asm"
    ∷ entry ".c" "text/x-c"
    ∷ entry ".cc" "text/x-c"
    ∷ entry ".cxx" "text/x-c"
    ∷ entry ".cpp" "text/x-c"
    ∷ entry ".h" "text/x-c"
    ∷ entry ".hh" "text/x-c"
    ∷ entry ".dic" "text/x-c"
    ∷ entry ".f" "text/x-fortran"
    ∷ entry ".for" "text/x-fortran"
    ∷ entry ".f77" "text/x-fortran"
    ∷ entry ".f90" "text/x-fortran"
    ∷ entry ".java" "text/x-java-source"
    ∷ entry ".nfo" "text/x-nfo"
    ∷ entry ".opml" "text/x-opml"
    ∷ entry ".p" "text/x-pascal"
    ∷ entry ".pas" "text/x-pascal"
    ∷ entry ".etx" "text/x-setext"
    ∷ entry ".sfv" "text/x-sfv"
    ∷ entry ".uu" "text/x-uuencode"
    ∷ entry ".vcs" "text/x-vcalendar"
    ∷ entry ".vcf" "text/x-vcard"
    ∷ entry ".3gp" "video/3gpp"
    ∷ entry ".3g2" "video/3gpp2"
    ∷ entry ".h261" "video/h261"
    ∷ entry ".h263" "video/h263"
    ∷ entry ".h264" "video/h264"
    ∷ entry ".jpgv" "video/jpeg"
    ∷ entry ".jpm" "video/jpm"
    ∷ entry ".jpgm" "video/jpm"
    ∷ entry ".mj2" "video/mj2"
    ∷ entry ".mjp2" "video/mj2"
    ∷ entry ".mp4" "video/mp4"
    ∷ entry ".mp4v" "video/mp4"
    ∷ entry ".mpg4" "video/mp4"
    ∷ entry ".mpeg" "video/mpeg"
    ∷ entry ".mpg" "video/mpeg"
    ∷ entry ".mpe" "video/mpeg"
    ∷ entry ".m1v" "video/mpeg"
    ∷ entry ".m2v" "video/mpeg"
    ∷ entry ".ogv" "video/ogg"
    ∷ entry ".qt" "video/quicktime"
    ∷ entry ".mov" "video/quicktime"
    ∷ entry ".uvh" "video/vnd.dece.hd"
    ∷ entry ".uvvh" "video/vnd.dece.hd"
    ∷ entry ".uvm" "video/vnd.dece.mobile"
    ∷ entry ".uvvm" "video/vnd.dece.mobile"
    ∷ entry ".uvp" "video/vnd.dece.pd"
    ∷ entry ".uvvp" "video/vnd.dece.pd"
    ∷ entry ".uvs" "video/vnd.dece.sd"
    ∷ entry ".uvvs" "video/vnd.dece.sd"
    ∷ entry ".uvv" "video/vnd.dece.video"
    ∷ entry ".uvvv" "video/vnd.dece.video"
    ∷ entry ".dvb" "video/vnd.dvb.file"
    ∷ entry ".fvt" "video/vnd.fvt"
    ∷ entry ".mxu" "video/vnd.mpegurl"
    ∷ entry ".m4u" "video/vnd.mpegurl"
    ∷ entry ".pyv" "video/vnd.ms-playready.media.pyv"
    ∷ entry ".uvu" "video/vnd.uvvu.mp4"
    ∷ entry ".uvvu" "video/vnd.uvvu.mp4"
    ∷ entry ".viv" "video/vnd.vivo"
    ∷ entry ".webm" "video/webm"
    ∷ entry ".f4v" "video/x-f4v"
    ∷ entry ".fli" "video/x-fli"
    ∷ entry ".flv" "video/x-flv"
    ∷ entry ".m4v" "video/x-m4v"
    ∷ entry ".mkv" "video/x-matroska"
    ∷ entry ".mk3d" "video/x-matroska"
    ∷ entry ".mks" "video/x-matroska"
    ∷ entry ".mng" "video/x-mng"
    ∷ entry ".asf" "video/x-ms-asf"
    ∷ entry ".asx" "video/x-ms-asf"
    ∷ entry ".vob" "video/x-ms-vob"
    ∷ entry ".wm" "video/x-ms-wm"
    ∷ entry ".wmv" "video/x-ms-wmv"
    ∷ entry ".wmx" "video/x-ms-wmx"
    ∷ entry ".wvx" "video/x-ms-wvx"
    ∷ entry ".avi" "video/x-msvideo"
    ∷ entry ".movie" "video/x-sgi-movie"
    ∷ entry ".smv" "video/x-smv"
    ∷ entry ".ice" "x-conference/x-cooltalk"
    ∷ []
