-- ===== src/Text/Tests.antt =====
-- Runs of the text helpers, and the theorems at concrete texts.
use torrest_cpp.Prelude.{◌≡◌, refl, ◌↔◌, false, bytes, ok, err}
use torrest_cpp.Text.{unescape_string, invalid_escaped_string, sanitize_ip_address, ltrim}
use torrest_cpp.Text.Unescape.{Decodes, unescape_string-eq-ok_iff}
use torrest_cpp.Text.Sanitize.{mask, sanitize_ip_address-mask}

unescape_runs : unescape_string (bytes "a+%2Fb%41") ≡ ok (bytes "a /bA")
unfolding unescape_string
unescape_runs = refl

unescape_short : unescape_string (bytes "a%2") ≡ err invalid_escaped_string
unfolding unescape_string
unescape_short = refl

sanitize_runs : sanitize_ip_address (bytes "192.168.1.20") 2 ≡ bytes "192.168.X.XX"
unfolding sanitize_ip_address
sanitize_runs = refl

sanitize_runs_v6 : sanitize_ip_address (bytes "fe80::1:2") 2 ≡ bytes "fe80::1:X"
unfolding sanitize_ip_address
sanitize_runs_v6 = refl

ltrim_runs : ltrim (bytes "..ab.c") (bytes ".") ≡ bytes "ab.c"
unfolding ltrim
ltrim_runs = refl

unescape_string-eq-ok_iff_example :
    (unescape_string (bytes "a+%2F") ≡ ok (bytes "a /")) ↔ Decodes (bytes "a+%2F") (bytes "a /")
unescape_string-eq-ok_iff_example = unescape_string-eq-ok_iff (bytes "a+%2F") (bytes "a /")

sanitize_ip_address-mask_example :
    sanitize_ip_address (bytes "10.0.7.1") 2 ≡ mask 2 0 false (bytes "10.0.7.1")
sanitize_ip_address-mask_example = sanitize_ip_address-mask (bytes "10.0.7.1") 2
