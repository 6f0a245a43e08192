-- ===== src/Mime/Application2.antt =====
-- The entries of src/utils/mime.cpp from `.fcdt` to `.ivu`.
use torrest_cpp.Prelude.{List, [], ◌∷◌, Bytes}
use torrest_cpp.Mime.Entry.{entry}

abbrev pub application2 : List (Bytes × Bytes)
application2 =
    entry ".fcdt" "application/vnd.adobe.formscentral.fcdt"
    ∷ entry ".fxp" "application/vnd.adobe.fxp"
    ∷ entry ".fxpl" "application/vnd.adobe.fxp"
    ∷ entry ".xdp" "application/vnd.adobe.xdp+xml"
    ∷ entry ".xfdf" "application/vnd.adobe.xfdf"
    ∷ entry ".ahead" "application/vnd.ahead.space"
    ∷ entry ".azf" "application/vnd.airzip.filesecure.azf"
    ∷ entry ".azs" "application/vnd.airzip.filesecure.azs"
    ∷ entry ".azw" "application/vnd.amazon.ebook"
    ∷ entry ".acc" "application/vnd.americandynamics.acc"
    ∷ entry ".ami" "application/vnd.amiga.ami"
    ∷ entry ".apk" "application/vnd.android.package-archive"
    ∷ entry ".cii" "application/vnd.anser-web-certificate-issue-initiation"
    ∷ entry ".fti" "application/vnd.anser-web-funds-transfer-initiation"
    ∷ entry ".atx" "application/vnd.antix.game-component"
    ∷ entry ".mpkg" "application/vnd.apple.installer+xml"
    ∷ entry ".m3u8" "application/vnd.apple.mpegurl"
    ∷ entry ".swi" "application/vnd.aristanetworks.swi"
    ∷ entry ".iota" "application/vnd.astraea-software.iota"
    ∷ entry ".aep" "application/vnd.audiograph"
    ∷ entry ".mpm" "application/vnd.blueice.multipass"
    ∷ entry ".bmi" "application/vnd.bmi"
    ∷ entry ".rep" "application/vnd.businessobjects"
    ∷ entry ".cdxml" "application/vnd.chemdraw+xml"
    ∷ entry ".mmd" "application/vnd.chipnuts.karaoke-mmd"
    ∷ entry ".cdy" "application/vnd.cinderella"
    ∷ entry ".cla" "application/vnd.claymore"
    ∷ entry ".rp9" "application/vnd.cloanto.rp9"
    ∷ entry ".c4g" "application/vnd.clonk.c4group"
    ∷ entry ".c4d" "application/vnd.clonk.c4group"
    ∷ entry ".c4f" "application/vnd.clonk.c4group"
    ∷ entry ".c4p" "application/vnd.clonk.c4group"
    ∷ entry ".c4u" "application/vnd.clonk.c4group"
    ∷ entry ".c11amc" "application/vnd.cluetrust.cartomobile-config"
    ∷ entry ".c11amz" "application/vnd.cluetrust.cartomobile-config-pkg"
    ∷ entry ".csp" "application/vnd.commonspace"
    ∷ entry ".cdbcmsg" "application/vnd.contact.cmsg"
    ∷ entry ".cmc" "application/vnd.cosmocaller"
    ∷ entry ".clkx" "application/vnd.crick.clicker"
    ∷ entry ".clkk" "application/vnd.crick.clicker.keyboard"
    ∷ entry ".clkp" "application/vnd.crick.clicker.palette"
    ∷ entry ".clkt" "application/vnd.crick.clicker.template"
    ∷ entry ".clkw" "application/vnd.crick.clicker.wordbank"
    ∷ entry ".wbs" "application/vnd.criticaltools.wbs+xml"
    ∷ entry ".pml" "application/vnd.ctc-posml"
    ∷ entry ".ppd" "application/vnd.cups-ppd"
    ∷ entry ".car" "application/vnd.curl.car"
    ∷ entry ".pcurl" "application/vnd.curl.pcurl"
    ∷ entry ".dart" "application/vnd.dart"
    ∷ entry ".rdz" "application/vnd.data-vision.rdz"
    ∷ entry ".uvf" "application/vnd.dece.data"
    ∷ entry ".uvvf" "application/vnd.dece.data"
    ∷ entry ".uvd" "application/vnd.dece.data"
    ∷ entry ".uvvd" "application/vnd.dece.data"
    ∷ entry ".uvt" "application/vnd.dece.ttml+xml"
    ∷ entry ".uvvt" "application/vnd.dece.ttml+xml"
    ∷ entry ".uvx" "application/vnd.dece.unspecified"
    ∷ entry ".uvvx" "application/vnd.dece.unspecified"
    ∷ entry ".uvz" "application/vnd.dece.zip"
    ∷ entry ".uvvz" "application/vnd.dece.zip"
    ∷ entry ".fe_launch" "application/vnd.denovo.fcselayout-link"
    ∷ entry ".dna" "application/vnd.dna"
    ∷ entry ".mlp" "application/vnd.dolby.mlp"
    ∷ entry ".dpg" "application/vnd.dpgraph"
    ∷ entry ".dfac" "application/vnd.dreamfactory"
    ∷ entry ".kpxx" "application/vnd.ds-keypoint"
    ∷ entry ".ait" "application/vnd.dvb.ait"
    ∷ entry ".svc" "application/vnd.dvb.service"
    ∷ entry ".geo" "application/vnd.dynageo"
    ∷ entry ".mag" "application/vnd.ecowin.chart"
    ∷ entry ".nml" "application/vnd.enliven"
    ∷ entry ".esf" "application/vnd.epson.esf"
    ∷ entry ".msf" "application/vnd.epson.msf"
    ∷ entry ".qam" "application/vnd.epson.quickanime"
    ∷ entry ".slt" "application/vnd.epson.salt"
    ∷ entry ".ssf" "application/vnd.epson.ssf"
    ∷ entry ".es3" "application/vnd.eszigno3+xml"
    ∷ entry ".et3" "application/vnd.eszigno3+xml"
    ∷ entry ".ez2" "application/vnd.ezpix-album"
    ∷ entry ".ez3" "application/vnd.ezpix-package"
    ∷ entry ".fdf" "application/vnd.fdf"
    ∷ entry ".mseed" "application/vnd.fdsn.mseed"
    ∷ entry ".seed" "application/vnd.fdsn.seed"
    ∷ entry ".dataless" "application/vnd.fdsn.seed"
    ∷ entry ".gph" "application/vnd.flographit"
    ∷ entry ".ftc" "application/vnd.fluxtime.clip"
    ∷ entry ".fm" "application/vnd.framemaker"
    ∷ entry ".frame" "application/vnd.framemaker"
    ∷ entry ".maker" "application/vnd.framemaker"
    ∷ entry ".book" "application/vnd.framemaker"
    ∷ entry ".fnc" "application/vnd.frogans.fnc"
    ∷ entry ".ltf" "application/vnd.frogans.ltf"
    ∷ entry ".fsc" "application/vnd.fsc.weblaunch"
    ∷ entry ".oas" "application/vnd.fujitsu.oasys"
    ∷ entry ".oa2" "application/vnd.fujitsu.oasys2"
    ∷ entry ".oa3" "application/vnd.fujitsu.oasys3"
    ∷ entry ".fg5" "application/vnd.fujitsu.oasysgp"
    ∷ entry ".bh2" "application/vnd.fujitsu.oasysprs"
    ∷ entry ".ddd" "application/vnd.fujixerox.ddd"
    ∷ entry ".xdw" "application/vnd.fujixerox.docuworks"
    ∷ entry ".xbd" "application/vnd.fujixerox.docuworks.binder"
    ∷ entry ".fzs" "application/vnd.fuzzysheet"
    ∷ entry ".txd" "application/vnd.genomatix.tuxedo"
    ∷ entry ".ggb" "application/vnd.geogebra.file"
    ∷ entry ".ggt" "application/vnd.geogebra.tool"
    ∷ entry ".gex" "application/vnd.geometry-explorer"
    ∷ entry ".gre" "application/vnd.geometry-explorer"
    ∷ entry ".gxt" "application/vnd.geonext"
    ∷ entry ".g2w" "application/vnd.geoplan"
    ∷ entry ".g3w" "application/vnd.geospace"
    ∷ entry ".gmx" "application/vnd.gmx"
    ∷ entry ".kml" "application/vnd.google-earth.kml+xml"
    ∷ entry ".kmz" "application/vnd.google-earth.kmz"
    ∷ entry ".gqf" "application/vnd.grafeq"
    ∷ entry ".gqs" "application/vnd.grafeq"
    ∷ entry ".gac" "application/vnd.groove-account"
    ∷ entry ".ghf" "application/vnd.groove-help"
    ∷ entry ".gim" "application/vnd.groove-identity-message"
    ∷ entry ".grv" "application/vnd.groove-injector"
    ∷ entry ".gtm" "application/vnd.groove-tool-message"
    ∷ entry ".tpl" "application/vnd.groove-tool-template"
    ∷ entry ".vcg" "application/vnd.groove-vcard"
    ∷ entry ".hal" "application/vnd.hal+xml"
    ∷ entry ".zmm" "application/vnd.handheld-entertainment+xml"
    ∷ entry ".hbci" "application/vnd.hbci"
    ∷ entry ".les" "application/vnd.hhe.lesson-player"
    ∷ entry ".hpgl" "application/vnd.hp-hpgl"
    ∷ entry ".hpid" "application/vnd.hp-hpid"
    ∷ entry ".hps" "application/vnd.hp-hps"
    ∷ entry ".jlt" "application/vnd.hp-jlyt"
    ∷ entry ".pcl" "application/vnd.hp-pcl"
    ∷ entry ".pclxl" "application/vnd.hp-pclxl"
    ∷ entry ".sfd-hdstx" "application/vnd.hydrostatix.sof-data"
    ∷ entry ".mpy" "application/vnd.ibm.minipay"
    ∷ entry ".afp" "application/vnd.ibm.modcap"
    ∷ entry ".listafp" "application/vnd.ibm.modcap"
    ∷ entry ".list3820" "application/vnd.ibm.modcap"
    ∷ entry ".irm" "application/vnd.ibm.rights-management"
    ∷ entry ".sc" "application/vnd.ibm.secure-container"
    ∷ entry ".icc" "application/vnd.iccprofile"
    ∷ entry ".icm" "application/vnd.iccprofile"
    ∷ entry ".igl" "application/vnd.igloader"
    ∷ entry ".ivp" "application/vnd.immervision-ivp"
    ∷ entry ".ivu" "application/vnd.immervision-ivu"
    ∷ []
