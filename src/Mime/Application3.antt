-- ===== src/Mime/Application3.antt =====
-- The entries of src/utils/mime.cpp from `.igm` to `.xltx`.
use torrest_cpp.Prelude.{List, [], ◌∷◌, Bytes}
use torrest_cpp.Mime.Entry.{entry}

abbrev pub application3 : List (Bytes × Bytes)
application3 =
    entry ".igm" "application/vnd.insors.igm"
    ∷ entry ".xpw" "application/vnd.intercon.formnet"
    ∷ entry ".xpx" "application/vnd.intercon.formnet"
    ∷ entry ".i2g" "application/vnd.intergeo"
    ∷ entry ".qbo" "application/vnd.intu.qbo"
    ∷ entry ".qfx" "application/vnd.intu.qfx"
    ∷ entry ".rcprofile" "application/vnd.ipunplugged.rcprofile"
    ∷ entry ".irp" "application/vnd.irepository.package+xml"
    ∷ entry ".xpr" "application/vnd.is-xpr"
    ∷ entry ".fcs" "application/vnd.isac.fcs"
    ∷ entry ".jam" "application/vnd.jam"
    ∷ entry ".rms" "application/vnd.jcp.javame.midlet-rms"
    ∷ entry ".jisp" "application/vnd.jisp"
    ∷ entry ".joda" "application/vnd.joost.joda-archive"
    ∷ entry ".ktz" "application/vnd.kahootz"
    ∷ entry ".ktr" "application/vnd.kahootz"
    ∷ entry ".karbon" "application/vnd.kde.karbon"
    ∷ entry ".chrt" "application/vnd.kde.kchart"
    ∷ entry ".kfo" "application/vnd.kde.kformula"
    ∷ entry ".flw" "application/vnd.kde.kivio"
    ∷ entry ".kon" "application/vnd.kde.kontour"
    ∷ entry ".kpr" "application/vnd.kde.kpresenter"
    ∷ entry ".kpt" "application/vnd.kde.kpresenter"
    ∷ entry ".ksp" "application/vnd.kde.kspread"
    ∷ entry ".kwd" "application/vnd.kde.kword"
    ∷ entry ".kwt" "application/vnd.kde.kword"
    ∷ entry ".htke" "application/vnd.kenameaapp"
    ∷ entry ".kia" "application/vnd.kidspiration"
    ∷ entry ".kne" "application/vnd.kinar"
    ∷ entry ".knp" "application/vnd.kinar"
    ∷ entry ".skp" "application/vnd.koan"
    ∷ entry ".skd" "application/vnd.koan"
    ∷ entry ".skt" "application/vnd.koan"
    ∷ entry ".skm" "application/vnd.koan"
    ∷ entry ".sse" "application/vnd.kodak-descriptor"
    ∷ entry ".lasxml" "application/vnd.las.las+xml"
    ∷ entry ".lbd" "application/vnd.llamagraphics.life-balance.desktop"
    ∷ entry ".lbe" "application/vnd.llamagraphics.life-balance.exchange+xml"
    ∷ entry ".123" "application/vnd.lotus-1-2-3"
    ∷ entry ".apr" "application/vnd.lotus-approach"
    ∷ entry ".pre" "application/vnd.lotus-freelance"
    ∷ entry ".nsf" "application/vnd.lotus-notes"
    ∷ entry ".org" "application/vnd.lotus-organizer"
    ∷ entry ".scm" "application/vnd.lotus-screencam"
    ∷ entry ".lwp" "application/vnd.lotus-wordpro"
    ∷ entry ".portpkg" "application/vnd.macports.portpkg"
    ∷ entry ".mcd" "application/vnd.mcd"
    ∷ entry ".mc1" "application/vnd.medcalcdata"
    ∷ entry ".cdkey" "application/vnd.mediastation.cdkey"
    ∷ entry ".mwf" "application/vnd.mfer"
    ∷ entry ".mfm" "application/vnd.mfmp"
    ∷ entry ".flo" "application/vnd.micrografx.flo"
    ∷ entry ".igx" "application/vnd.micrografx.igx"
    ∷ entry ".mif" "application/vnd.mif"
    ∷ entry ".daf" "application/vnd.mobius.daf"
    ∷ entry ".dis" "application/vnd.mobius.dis"
    ∷ entry ".mbk" "application/vnd.mobius.mbk"
    ∷ entry ".mqy" "application/vnd.mobius.mqy"
    ∷ entry ".msl" "application/vnd.mobius.msl"
    ∷ entry ".plc" "application/vnd.mobius.plc"
    ∷ entry ".txf" "application/vnd.mobius.txf"
    ∷ entry ".mpn" "application/vnd.mophun.application"
    ∷ entry ".mpc" "application/vnd.mophun.certificate"
    ∷ entry ".xul" "application/vnd.mozilla.xul+xml"
    ∷ entry ".cil" "application/vnd.ms-artgalry"
    ∷ entry ".cab" "application/vnd.ms-cab-compressed"
    ∷ entry ".xls" "application/vnd.ms-excel"
    ∷ entry ".xlm" "application/vnd.ms-excel"
    ∷ entry ".xla" "application/vnd.ms-excel"
    ∷ entry ".xlc" "application/vnd.ms-excel"
    ∷ entry ".xlt" "application/vnd.ms-excel"
    ∷ entry ".xlw" "application/vnd.ms-excel"
    ∷ entry ".xlam" "application/vnd.ms-excel.addin.macroenabled.12"
    ∷ entry ".xlsb" "application/vnd.ms-excel.sheet.binary.macroenabled.12"
    ∷ entry ".xlsm" "application/vnd.ms-excel.sheet.macroenabled.12"
    ∷ entry ".xltm" "application/vnd.ms-excel.template.macroenabled.12"
    ∷ entry ".eot" "application/vnd.ms-fontobject"
    ∷ entry ".chm" "application/vnd.ms-htmlhelp"
    ∷ entry ".ims" "application/vnd.ms-ims"
    ∷ entry ".lrm" "application/vnd.ms-lrm"
    ∷ entry ".thmx" "application/vnd.ms-officetheme"
    ∷ entry ".cat" "application/vnd.ms-pki.seccat"
    ∷ entry ".stl" "application/vnd.ms-pki.stl"
    ∷ entry ".ppt" "application/vnd.ms-powerpoint"
    ∷ entry ".pps" "application/vnd.ms-powerpoint"
    ∷ entry ".pot" "application/vnd.ms-powerpoint"
    ∷ entry ".ppam" "application/vnd.ms-powerpoint.addin.macroenabled.12"
    ∷ entry ".pptm" "application/vnd.ms-powerpoint.presentation.macroenabled.12"
    ∷ entry ".sldm" "application/vnd.ms-powerpoint.slide.macroenabled.12"
    ∷ entry ".ppsm" "application/vnd.ms-powerpoint.slideshow.macroenabled.12"
    ∷ entry ".potm" "application/vnd.ms-powerpoint.template.macroenabled.12"
    ∷ entry ".mpp" "application/vnd.ms-project"
    ∷ entry ".mpt" "application/vnd.ms-project"
    ∷ entry ".docm" "application/vnd.ms-word.document.macroenabled.12"
    ∷ entry ".dotm" "application/vnd.ms-word.template.macroenabled.12"
    ∷ entry ".wps" "application/vnd.ms-works"
    ∷ entry ".wks" "application/vnd.ms-works"
    ∷ entry ".wcm" "application/vnd.ms-works"
    ∷ entry ".wdb" "application/vnd.ms-works"
    ∷ entry ".wpl" "application/vnd.ms-wpl"
    ∷ entry ".xps" "application/vnd.ms-xpsdocument"
    ∷ entry ".mseq" "application/vnd.mseq"
    ∷ entry ".mus" "application/vnd.musician"
    ∷ entry ".msty" "application/vnd.muvee.style"
    ∷ entry ".taglet" "application/vnd.mynfc"
    ∷ entry ".nlu" "application/vnd.neurolanguage.nlu"
    ∷ entry ".ntf" "application/vnd.nitf"
    ∷ entry ".nitf" "application/vnd.nitf"
    ∷ entry ".nnd" "application/vnd.noblenet-directory"
    ∷ entry ".nns" "application/vnd.noblenet-sealer"
    ∷ entry ".nnw" "application/vnd.noblenet-web"
    ∷ entry ".ngdat" "application/vnd.nokia.n-gage.data"
    ∷ entry ".n-gage" "application/vnd.nokia.n-gage.symbian.install"
    ∷ entry ".rpst" "application/vnd.nokia.radio-preset"
    ∷ entry ".rpss" "application/vnd.nokia.radio-presets"
    ∷ entry ".edm" "application/vnd.novadigm.edm"
    ∷ entry ".edx" "application/vnd.novadigm.edx"
    ∷ entry ".ext" "application/vnd.novadigm.ext"
    ∷ entry ".odc" "application/vnd.oasis.opendocument.chart"
    ∷ entry ".otc" "application/vnd.oasis.opendocument.chart-template"
    ∷ entry ".odb" "application/vnd.oasis.opendocument.database"
    ∷ entry ".odf" "application/vnd.oasis.opendocument.formula"
    ∷ entry ".odft" "application/vnd.oasis.opendocument.formula-template"
    ∷ entry ".odg" "application/vnd.oasis.opendocument.graphics"
    ∷ entry ".otg" "application/vnd.oasis.opendocument.graphics-template"
    ∷ entry ".odi" "application/vnd.oasis.opendocument.image"
    ∷ entry ".oti" "application/vnd.oasis.opendocument.image-template"
    ∷ entry ".odp" "application/vnd.oasis.opendocument.presentation"
    ∷ entry ".otp" "application/vnd.oasis.opendocument.presentation-template"
    ∷ entry ".ods" "application/vnd.oasis.opendocument.spreadsheet"
    ∷ entry ".ots" "application/vnd.oasis.opendocument.spreadsheet-template"
    ∷ entry ".odt" "application/vnd.oasis.opendocument.text"
    ∷ entry ".odm" "application/vnd.oasis.opendocument.text-master"
    ∷ entry ".ott" "application/vnd.oasis.opendocument.text-template"
    ∷ entry ".oth" "application/vnd.oasis.opendocument.text-web"
    ∷ entry ".xo" "application/vnd.olpc-sugar"
    ∷ entry ".dd2" "application/vnd.oma.dd2+xml"
    ∷ entry ".oxt" "application/vnd.openofficeorg.extension"
    ∷ entry ".pptx" "application/vnd.openxmlformats-officedocument.presentationml.presentation"
    ∷ entry ".sldx" "application/vnd.openxmlformats-officedocument.presentationml.slide"
    ∷ entry ".ppsx" "application/vnd.openxmlformats-officedocument.presentationml.slideshow"
    ∷ entry ".potx" "application/vnd.openxmlformats-officedocument.presentationml.template"
    ∷ entry ".xlsx" "application/vnd.openxmlformats-officedocument.spreadsheetml.sheet"
    ∷ entry ".xltx" "application/vnd.openxmlformats-officedocument.spreadsheetml.template"
    ∷ []
