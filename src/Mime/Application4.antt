-- ===== src/Mime/Application4.antt =====
-- The entries of src/utils/mime.cpp from `.docx` to `.cbt`.
use torrest_cpp.Prelude.{List, [], ◌∷◌, Bytes}
use torrest_cpp.Mime.Entry.{entry}

abbrev pub application4 : List (Bytes × Bytes)
application4 =
    entry ".docx" "application/vnd.openxmlformats-officedocument.wordprocessingml.document"
    ∷ entry ".dotx" "application/vnd.openxmlformats-officedocument.wordprocessingml.template"
    ∷ entry ".mgp" "application/vnd.osgeo.mapguide.package"
    ∷ entry ".dp" "application/vnd.osgi.dp"
    ∷ entry ".esa" "application/vnd.osgi.subsystem"
    ∷ entry ".pdb" "application/vnd.palm"
    ∷ entry ".pqa" "application/vnd.palm"
    ∷ entry ".oprc" "application/vnd.palm"
    ∷ entry ".paw" "application/vnd.pawaafile"
    ∷ entry ".str" "application/vnd.pg.format"
    ∷ entry ".ei6" "application/vnd.pg.osasli"
    ∷ entry ".efif" "application/vnd.picsel"
    ∷ entry ".wg" "application/vnd.pmi.widget"
    ∷ entry ".plf" "application/vnd.pocketlearn"
    ∷ entry ".pbd" "application/vnd.powerbuilder6"
    ∷ entry ".box" "application/vnd.previewsystems.box"
    ∷ entry ".mgz" "application/vnd.proteus.magazine"
    ∷ entry ".qps" "application/vnd.publishare-delta-tree"
    ∷ entry ".ptid" "application/vnd.pvi.ptid1"
    ∷ entry ".qxd" "application/vnd.quark.quarkxpress"
    ∷ entry ".qxt" "application/vnd.quark.quarkxpress"
    ∷ entry ".qwd" "application/vnd.quark.quarkxpress"
    ∷ entry ".qwt" "application/vnd.quark.quarkxpress"
    ∷ entry ".qxl" "application/vnd.quark.quarkxpress"
    ∷ entry ".qxb" "application/vnd.quark.quarkxpress"
    ∷ entry ".bed" "application/vnd.realvnc.bed"
    ∷ entry ".mxl" "application/vnd.recordare.musicxml"
    ∷ entry ".musicxml" "application/vnd.recordare.musicxml+xml"
    ∷ entry ".cryptonote" "application/vnd.rig.cryptonote"
    ∷ entry ".cod" "application/vnd.rim.cod"
    ∷ entry ".rm" "application/vnd.rn-realmedia"
    ∷ entry ".rmvb" "application/vnd.rn-realmedia-vbr"
    ∷ entry ".link66" "application/vnd.route66.link66+xml"
    ∷ entry ".st" "application/vnd.sailingtracker.track"
    ∷ entry ".see" "application/vnd.seemail"
    ∷ entry ".sema" "application/vnd.sema"
    ∷ entry ".semd" "application/vnd.semd"
    ∷ entry ".semf" "application/vnd.semf"
    ∷ entry ".ifm" "application/vnd.shana.informed.formdata"
    ∷ entry ".itp" "application/vnd.shana.informed.formtemplate"
    ∷ entry ".iif" "application/vnd.shana.informed.interchange"
    ∷ entry ".ipk" "application/vnd.shana.informed.package"
    ∷ entry ".twd" "application/vnd.simtech-mindmapper"
    ∷ entry ".twds" "application/vnd.simtech-mindmapper"
    ∷ entry ".mmf" "application/vnd.smaf"
    ∷ entry ".teacher" "application/vnd.smart.teacher"
    ∷ entry ".sdkm" "application/vnd.solent.sdkm+xml"
    ∷ entry ".sdkd" "application/vnd.solent.sdkm+xml"
    ∷ entry ".dxp" "application/vnd.spotfire.dxp"
    ∷ entry ".sfs" "application/vnd.spotfire.sfs"
    ∷ entry ".sdc" "application/vnd.stardivision.calc"
    ∷ entry ".sda" "application/vnd.stardivision.draw"
    ∷ entry ".sdd" "application/vnd.stardivision.impress"
    ∷ entry ".smf" "application/vnd.stardivision.math"
    ∷ entry ".sdw" "application/vnd.stardivision.writer"
    ∷ entry ".vor" "application/vnd.stardivision.writer"
    ∷ entry ".sgl" "application/vnd.stardivision.writer-global"
    ∷ entry ".smzip" "application/vnd.stepmania.package"
    ∷ entry ".sm" "application/vnd.stepmania.stepchart"
    ∷ entry ".sxc" "application/vnd.sun.xml.calc"
    ∷ entry ".stc" "application/vnd.sun.xml.calc.template"
    ∷ entry ".sxd" "application/vnd.sun.xml.draw"
    ∷ entry ".std" "application/vnd.sun.xml.draw.template"
    ∷ entry ".sxi" "application/vnd.sun.xml.impress"
    ∷ entry ".sti" "application/vnd.sun.xml.impress.template"
    ∷ entry ".sxm" "application/vnd.sun.xml.math"
    ∷ entry ".sxw" "application/vnd.sun.xml.writer"
    ∷ entry ".sxg" "application/vnd.sun.xml.writer.global"
    ∷ entry ".stw" "application/vnd.sun.xml.writer.template"
    ∷ entry ".sus" "application/vnd.sus-calendar"
    ∷ entry ".susp" "application/vnd.sus-calendar"
    ∷ entry ".svd" "application/vnd.svd"
    ∷ entry ".sis" "application/vnd.symbian.install"
    ∷ entry ".sisx" "application/vnd.symbian.install"
    ∷ entry ".xsm" "application/vnd.syncml+xml"
    ∷ entry ".bdm" "application/vnd.syncml.dm+wbxml"
    ∷ entry ".xdm" "application/vnd.syncml.dm+xml"
    ∷ entry ".tao" "application/vnd.tao.intent-module-archive"
    ∷ entry ".pcap" "application/vnd.tcpdump.pcap"
    ∷ entry ".cap" "application/vnd.tcpdump.pcap"
    ∷ entry ".dmp" "application/vnd.tcpdump.pcap"
    ∷ entry ".tmo" "application/vnd.tmobile-livetv"
    ∷ entry ".tpt" "application/vnd.trid.tpt"
    ∷ entry ".mxs" "application/vnd.triscape.mxs"
    ∷ entry ".tra" "application/vnd.trueapp"
    ∷ entry ".ufd" "application/vnd.ufdl"
    ∷ entry ".ufdl" "application/vnd.ufdl"
    ∷ entry ".utz" "application/vnd.uiq.theme"
    ∷ entry ".umj" "application/vnd.umajin"
    ∷ entry ".unityweb" "application/vnd.unity"
    ∷ entry ".uoml" "application/vnd.uoml+xml"
    ∷ entry ".vcx" "application/vnd.vcx"
    ∷ entry ".vsd" "application/vnd.visio"
    ∷ entry ".vst" "application/vnd.visio"
    ∷ entry ".vss" "application/vnd.visio"
    ∷ entry ".vsw" "application/vnd.visio"
    ∷ entry ".vis" "application/vnd.visionary"
    ∷ entry ".vsf" "application/vnd.vsf"
    ∷ entry ".wbxml" "application/vnd.wap.wbxml"
    ∷ entry ".wmlc" "application/vnd.wap.wmlc"
    ∷ entry ".wmlsc" "application/vnd.wap.wmlscriptc"
    ∷ entry ".wtb" "application/vnd.webturbo"
    ∷ entry ".nbp" "application/vnd.wolfram.player"
    ∷ entry ".wpd" "application/vnd.wordperfect"
    ∷ entry ".wqd" "application/vnd.wqd"
    ∷ entry ".stf" "application/vnd.wt.stf"
    ∷ entry ".xar" "application/vnd.xara"
    ∷ entry ".xfdl" "application/vnd.xfdl"
    ∷ entry ".hvd" "application/vnd.yamaha.hv-dic"
    ∷ entry ".hvs" "application/vnd.yamaha.hv-script"
    ∷ entry ".hvp" "application/vnd.yamaha.hv-voice"
    ∷ entry ".osf" "application/vnd.yamaha.openscoreformat"
    ∷ entry ".osfpvg" "application/vnd.yamaha.openscoreformat.osfpvg+xml"
    ∷ entry ".saf" "application/vnd.yamaha.smaf-audio"
    ∷ entry ".spf" "application/vnd.yamaha.smaf-phrase"
    ∷ entry ".cmp" "application/vnd.yellowriver-custom-menu"
    ∷ entry ".zir" "application/vnd.zul"
    ∷ entry ".zirz" "application/vnd.zul"
    ∷ entry ".zaz" "application/vnd.zzazz.deck+xml"
    ∷ entry ".vxml" "application/voicexml+xml"
    ∷ entry ".wgt" "application/widget"
    ∷ entry ".hlp" "application/winhlp"
    ∷ entry ".wsdl" "application/wsdl+xml"
    ∷ entry ".wspolicy" "application/wspolicy+xml"
    ∷ entry ".7z" "application/x-7z-compressed"
    ∷ entry ".abw" "application/x-abiword"
    ∷ entry ".ace" "application/x-ace-compressed"
    ∷ entry ".dmg" "application/x-apple-diskimage"
    ∷ entry ".aab" "application/x-authorware-bin"
    ∷ entry ".x32" "application/x-authorware-bin"
    ∷ entry ".u32" "application/x-authorware-bin"
    ∷ entry ".vox" "application/x-authorware-bin"
    ∷ entry ".aam" "application/x-authorware-map"
    ∷ entry ".aas" "application/x-authorware-seg"
    ∷ entry ".bcpio" "application/x-bcpio"
    ∷ entry ".torrent" "application/x-bittorrent"
    ∷ entry ".blb" "application/x-blorb"
    ∷ entry ".blorb" "application/x-blorb"
    ∷ entry ".bz" "application/x-bzip"
    ∷ entry ".bz2" "application/x-bzip2"
    ∷ entry ".boz" "application/x-bzip2"
    ∷ entry ".cbr" "application/x-cbr"
    ∷ entry ".cba" "application/x-cbr"
    ∷ entry ".cbt" "application/x-cbr"
    ∷ []
