-- ===== src/Mime/Application1.antt =====
-- The entries of src/utils/mime.cpp from `.ez` to `.air`.
use torrest_cpp.Prelude.{List, [], ◌∷◌, Bytes}
use torrest_cpp.Mime.Entry.{entry}

abbrev pub application1 : List (Bytes × Bytes)
application1 =
    entry ".ez" "application/andrew-inset"
    ∷ entry ".aw" "application/applixware"
    ∷ entry ".atom" "application/atom+xml"
    ∷ entry ".atomcat" "application/atomcat+xml"
    ∷ entry ".atomsvc" "application/atomsvc+xml"
    ∷ entry ".ccxml" "application/ccxml+xml"
    ∷ entry ".cdmia" "application/cdmi-capability"
    ∷ entry ".cdmic" "application/cdmi-container"
    ∷ entry ".cdmid" "application/cdmi-domain"
    ∷ entry ".cdmio" "application/cdmi-object"
    ∷ entry ".cdmiq" "application/cdmi-queue"
    ∷ entry ".cu" "application/cu-seeme"
    ∷ entry ".davmount" "application/davmount+xml"
    ∷ entry ".dbk" "application/docbook+xml"
    ∷ entry ".dssc" "application/dssc+der"
    ∷ entry ".xdssc" "application/dssc+xml"
    ∷ entry ".ecma" "application/ecmascript"
    ∷ entry ".emma" "application/emma+xml"
    ∷ entry ".epub" "application/epub+zip"
    ∷ entry ".exi" "application/exi"
    ∷ entry ".pfr" "application/font-tdpfr"
    ∷ entry ".gml" "application/gml+xml"
    ∷ entry ".gpx" "application/gpx+xml"
    ∷ entry ".gxf" "application/gxf"
    ∷ entry ".stk" "application/hyperstudio"
    ∷ entry ".ink" "application/inkml+xml"
    ∷ entry ".inkml" "application/inkml+xml"
    ∷ entry ".ipfix" "application/ipfix"
    ∷ entry ".jar" "application/java-archive"
    ∷ entry ".ser" "application/java-serialized-object"
    ∷ entry ".class" "application/java-vm"
    ∷ entry ".js" "application/javascript"
    ∷ entry ".json" "application/json"
    ∷ entry ".jsonml" "application/jsonml+json"
    ∷ entry ".lostxml" "application/lost+xml"
    ∷ entry ".hqx" "application/mac-binhex40"
    ∷ entry ".cpt" "application/mac-compactpro"
    ∷ entry ".mads" "application/mads+xml"
    ∷ entry ".mrc" "application/marc"
    ∷ entry ".mrcx" "application/marcxml+xml"
    ∷ entry ".ma" "application/mathematica"
    ∷ entry ".nb" "application/mathematica"
    ∷ entry ".mb" "application/mathematica"
    ∷ entry ".mathml" "application/mathml+xml"
    ∷ entry ".mbox" "application/mbox"
    ∷ entry ".mscml" "application/mediaservercontrol+xml"
    ∷ entry ".metalink" "application/metalink+xml"
    ∷ entry ".meta4" "application/metalink4+xml"
    ∷ entry ".mets" "application/mets+xml"
    ∷ entry ".mods" "application/mods+xml"
    ∷ entry ".m21" "application/mp21"
    ∷ entry ".mp21" "application/mp21"
    ∷ entry ".mp4s" "application/mp4"
    ∷ entry ".doc" "application/msword"
    ∷ entry ".dot" "application/msword"
    ∷ entry ".mxf" "application/mxf"
    ∷ entry ".bin" "application/octet-stream"
    ∷ entry ".dms" "application/octet-stream"
    ∷ entry ".lrf" "application/octet-stream"
    ∷ entry ".mar" "application/octet-stream"
    ∷ entry ".so" "application/octet-stream"
    ∷ entry ".dist" "application/octet-stream"
    ∷ entry ".distz" "application/octet-stream"
    ∷ entry ".pkg" "application/octet-stream"
    ∷ entry ".bpk" "application/octet-stream"
    ∷ entry ".dump" "application/octet-stream"
    ∷ entry ".elc" "application/octet-stream"
    ∷ entry ".deploy" "application/octet-stream"
    ∷ entry ".oda" "application/oda"
    ∷ entry ".opf" "application/oebps-package+xml"
    ∷ entry ".ogx" "application/ogg"
    ∷ entry ".omdoc" "application/omdoc+xml"
    ∷ entry ".onetoc" "application/onenote"
    ∷ entry ".onetoc2" "application/onenote"
    ∷ entry ".onetmp" "application/onenote"
    ∷ entry ".onepkg" "application/onenote"
    ∷ entry ".oxps" "application/oxps"
    ∷ entry ".xer" "application/patch-ops-error+xml"
    ∷ entry ".pdf" "application/pdf"
    ∷ entry ".pgp" "application/pgp-encrypted"
    ∷ entry ".asc" "application/pgp-signature"
    ∷ entry ".sig" "application/pgp-signature"
    ∷ entry ".prf" "application/pics-rules"
    ∷ entry ".p10" "application/pkcs10"
    ∷ entry ".p7m" "application/pkcs7-mime"
    ∷ entry ".p7c" "application/pkcs7-mime"
    ∷ entry ".p7s" "application/pkcs7-signature"
    ∷ entry ".p8" "application/pkcs8"
    ∷ entry ".ac" "application/pkix-attr-cert"
    ∷ entry ".cer" "application/pkix-cert"
    ∷ entry ".crl" "application/pkix-crl"
    ∷ entry ".pkipath" "application/pkix-pkipath"
    ∷ entry ".pki" "application/pkixcmp"
    ∷ entry ".pls" "application/pls+xml"
    ∷ entry ".ai" "application/postscript"
    ∷ entry ".eps" "application/postscript"
    ∷ entry ".ps" "application/postscript"
    ∷ entry ".cww" "application/prs.cww"
    ∷ entry ".pskcxml" "application/pskc+xml"
    ∷ entry ".rdf" "application/rdf+xml"
    ∷ entry ".rif" "application/reginfo+xml"
    ∷ entry ".rnc" "application/relax-ng-compact-syntax"
    ∷ entry ".rl" "application/resource-lists+xml"
    ∷ entry ".rld" "application/resource-lists-diff+xml"
    ∷ entry ".rs" "application/rls-services+xml"
    ∷ entry ".gbr" "application/rpki-ghostbusters"
    ∷ entry ".mft" "application/rpki-manifest"
    ∷ entry ".roa" "application/rpki-roa"
    ∷ entry ".rsd" "application/rsd+xml"
    ∷ entry ".rss" "application/rss+xml"
    ∷ entry ".rtf" "application/rtf"
    ∷ entry ".sbml" "application/sbml+xml"
    ∷ entry ".scq" "application/scvp-cv-request"
    ∷ entry ".scs" "application/scvp-cv-response"
    ∷ entry ".spq" "application/scvp-vp-request"
    ∷ entry ".spp" "application/scvp-vp-response"
    ∷ entry ".sdp" "application/sdp"
    ∷ entry ".setpay" "application/set-payment-initiation"
    ∷ entry ".setreg" "application/set-registration-initiation"
    ∷ entry ".shf" "application/shf+xml"
    ∷ entry ".smi" "application/smil+xml"
    ∷ entry ".smil" "application/smil+xml"
    ∷ entry ".rq" "application/sparql-query"
    ∷ entry ".srx" "application/sparql-results+xml"
    ∷ entry ".gram" "application/srgs"
    ∷ entry ".grxml" "application/srgs+xml"
    ∷ entry ".sru" "application/sru+xml"
    ∷ entry ".ssdl" "application/ssdl+xml"
    ∷ entry ".ssml" "application/ssml+xml"
    ∷ entry ".tei" "application/tei+xml"
    ∷ entry ".teicorpus" "application/tei+xml"
    ∷ entry ".tfi" "application/thraud+xml"
    ∷ entry ".tsd" "application/timestamped-data"
    ∷ entry ".plb" "application/vnd.3gpp.pic-bw-large"
    ∷ entry ".psb" "application/vnd.3gpp.pic-bw-small"
    ∷ entry ".pvb" "application/vnd.3gpp.pic-bw-var"
    ∷ entry ".tcap" "application/vnd.3gpp2.tcap"
    ∷ entry ".pwn" "application/vnd.3m.post-it-notes"
    ∷ entry ".aso" "application/vnd.accpac.simply.aso"
    ∷ entry ".imp" "application/vnd.accpac.simply.imp"
    ∷ entry ".acu" "application/vnd.acucobol"
    ∷ entry ".atc" "application/vnd.acucorp"
    ∷ entry ".acutc" "application/vnd.acucorp"
    ∷ entry ".air" "application/vnd.adobe.air-application-installer-package+zip"
    ∷ []
