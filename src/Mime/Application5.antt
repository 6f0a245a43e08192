-- ===== src/Mime/Application5.antt =====
-- The entries of src/utils/mime.cpp from `.cbz` to `.zip`.
use torrest_cpp.Prelude.{List, [], ◌∷◌, Bytes}
use torrest_cpp.Mime.Entry.{entry}

abbrev pub application5 : List (Bytes × Bytes)
application5 =
    entry ".cbz" "application/x-cbr"
    ∷ entry ".cb7" "application/x-cbr"
    ∷ entry ".vcd" "application/x-cdlink"
    ∷ entry ".cfs" "application/x-cfs-compressed"
    ∷ entry ".chat" "application/x-chat"
    ∷ entry ".pgn" "application/x-chess-pgn"
    ∷ entry ".nsc" "application/x-conference"
    ∷ entry ".cpio" "application/x-cpio"
    ∷ entry ".csh" "application/x-csh"
    ∷ entry ".deb" "application/x-debian-package"
    ∷ entry ".udeb" "application/x-debian-package"
    ∷ entry ".dgc" "application/x-dgc-compressed"
    ∷ entry ".dir" "application/x-director"
    ∷ entry ".dcr" "application/x-director"
    ∷ entry ".dxr" "application/x-director"
    ∷ entry ".cst" "application/x-director"
    ∷ entry ".cct" "application/x-director"
    ∷ entry ".cxt" "application/x-director"
    ∷ entry ".w3d" "application/x-director"
    ∷ entry ".fgd" "application/x-director"
    ∷ entry ".swa" "application/x-director"
    ∷ entry ".wad" "application/x-doom"
    ∷ entry ".ncx" "application/x-dtbncx+xml"
    ∷ entry ".dtb" "application/x-dtbook+xml"
    ∷ entry ".res" "application/x-dtbresource+xml"
    ∷ entry ".dvi" "application/x-dvi"
    ∷ entry ".evy" "application/x-envoy"
    ∷ entry ".eva" "application/x-eva"
    ∷ entry ".bdf" "application/x-font-bdf"
    ∷ entry ".gsf" "application/x-font-ghostscript"
    ∷ entry ".psf" "application/x-font-linux-psf"
    ∷ entry ".pcf" "application/x-font-pcf"
    ∷ entry ".snf" "application/x-font-snf"
    ∷ entry ".pfa" "application/x-font-type1"
    ∷ entry ".pfb" "application/x-font-type1"
    ∷ entry ".pfm" "application/x-font-type1"
    ∷ entry ".afm" "application/x-font-type1"
    ∷ entry ".arc" "application/x-freearc"
    ∷ entry ".spl" "application/x-futuresplash"
    ∷ entry ".gca" "application/x-gca-compressed"
    ∷ entry ".ulx" "application/x-glulx"
    ∷ entry ".gnumeric" "application/x-gnumeric"
    ∷ entry ".gramps" "application/x-gramps-xml"
    ∷ entry ".gtar" "application/x-gtar"
    ∷ entry ".hdf" "application/x-hdf"
    ∷ entry ".install" "application/x-install-instructions"
    ∷ entry ".iso" "application/x-iso9660-image"
    ∷ entry ".jnlp" "application/x-java-jnlp-file"
    ∷ entry ".latex" "application/x-latex"
    ∷ entry ".lzh" "application/x-lzh-compressed"
    ∷ entry ".lha" "application/x-lzh-compressed"
    ∷ entry ".mie" "application/x-mie"
    ∷ entry ".prc" "application/x-mobipocket-ebook"
    ∷ entry ".mobi" "application/x-mobipocket-ebook"
    ∷ entry ".application" "application/x-ms-application"
    ∷ entry ".lnk" "application/x-ms-shortcut"
    ∷ entry ".wmd" "application/x-ms-wmd"
    ∷ entry ".wmz" "application/x-ms-wmz"
    ∷ entry ".xbap" "application/x-ms-xbap"
    ∷ entry ".mdb" "application/x-msaccess"
    ∷ entry ".obd" "application/x-msbinder"
    ∷ entry ".crd" "application/x-mscardfile"
    ∷ entry ".clp" "application/x-msclip"
    ∷ entry ".exe" "application/x-msdownload"
    ∷ entry ".dll" "application/x-msdownload"
    ∷ entry ".com" "application/x-msdownload"
    ∷ entry ".bat" "application/x-msdownload"
    ∷ entry ".msi" "application/x-msdownload"
    ∷ entry ".mvb" "application/x-msmediaview"
    ∷ entry ".m13" "application/x-msmediaview"
    ∷ entry ".m14" "application/x-msmediaview"
    ∷ entry ".wmf" "application/x-msmetafile"
    ∷ entry ".wmz" "application/x-msmetafile"
    ∷ entry ".emf" "application/x-msmetafile"
    ∷ entry ".emz" "application/x-msmetafile"
    ∷ entry ".mny" "application/x-msmoney"
    ∷ entry ".pub" "application/x-mspublisher"
    ∷ entry ".scd" "application/x-msschedule"
    ∷ entry ".trm" "application/x-msterminal"
    ∷ entry ".wri" "application/x-mswrite"
    ∷ entry ".nc" "application/x-netcdf"
    ∷ entry ".cdf" "application/x-netcdf"
    ∷ entry ".nzb" "application/x-nzb"
    ∷ entry ".p12" "application/x-pkcs12"
    ∷ entry ".pfx" "application/x-pkcs12"
    ∷ entry ".p7b" "application/x-pkcs7-certificates"
    ∷ entry ".spc" "application/x-pkcs7-certificates"
    ∷ entry ".p7r" "application/x-pkcs7-certreqresp"
    ∷ entry ".rar" "application/x-rar-compressed"
    ∷ entry ".ris" "application/x-research-info-systems"
    ∷ entry ".sh" "application/x-sh"
    ∷ entry ".shar" "application/x-shar"
    ∷ entry ".swf" "application/x-shockwave-flash"
    ∷ entry ".xap" "application/x-silverlight-app"
    ∷ entry ".sql" "application/x-sql"
    ∷ entry ".sit" "application/x-stuffit"
    ∷ entry ".sitx" "application/x-stuffitx"
    ∷ entry ".srt" "application/x-subrip"
    ∷ entry ".sv4cpio" "application/x-sv4cpio"
    ∷ entry ".sv4crc" "application/x-sv4crc"
    ∷ entry ".t3" "application/x-t3vm-image"
    ∷ entry ".gam" "application/x-tads"
    ∷ entry ".tar" "application/x-tar"
    ∷ entry ".tcl" "application/x-tcl"
    ∷ entry ".tex" "application/x-tex"
    ∷ entry ".tfm" "application/x-tex-tfm"
    ∷ entry ".texinfo" "application/x-texinfo"
    ∷ entry ".texi" "application/x-texinfo"
    ∷ entry ".obj" "application/x-tgif"
    ∷ entry ".ustar" "application/x-ustar"
    ∷ entry ".src" "application/x-wais-source"
    ∷ entry ".der" "application/x-x509-ca-cert"
    ∷ entry ".crt" "application/x-x509-ca-cert"
    ∷ entry ".fig" "application/x-xfig"
    ∷ entry ".xlf" "application/x-xliff+xml"
    ∷ entry ".xpi" "application/x-xpinstall"
    ∷ entry ".xz" "application/x-xz"
    ∷ entry ".z1" "application/x-zmachine"
    ∷ entry ".z2" "application/x-zmachine"
    ∷ entry ".z3" "application/x-zmachine"
    ∷ entry ".z4" "application/x-zmachine"
    ∷ entry ".z5" "application/x-zmachine"
    ∷ entry ".z6" "application/x-zmachine"
    ∷ entry ".z7" "application/x-zmachine"
    ∷ entry ".z8" "application/x-zmachine"
    ∷ entry ".xaml" "application/xaml+xml"
    ∷ entry ".xdf" "application/xcap-diff+xml"
    ∷ entry ".xenc" "application/xenc+xml"
    ∷ entry ".xhtml" "application/xhtml+xml"
    ∷ entry ".xht" "application/xhtml+xml"
    ∷ entry ".xml" "application/xml"
    ∷ entry ".xsl" "application/xml"
    ∷ entry ".dtd" "application/xml-dtd"
    ∷ entry ".xop" "application/xop+xml"
    ∷ entry ".xpl" "application/xproc+xml"
    ∷ entry ".xslt" "application/xslt+xml"
    ∷ entry ".xspf" "application/xspf+xml"
    ∷ entry ".mxml" "application/xv+xml"
    ∷ entry ".xhvml" "application/xv+xml"
    ∷ entry ".xvml" "application/xv+xml"
    ∷ entry ".xvm" "application/xv+xml"
    ∷ entry ".yang" "application/yang"
    ∷ entry ".yin" "application/yin+xml"
    ∷ entry ".zip" "application/zip"
    ∷ []
