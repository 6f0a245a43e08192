-- ===== src/Settings/Tests.antt =====
-- The default settings, with a proxy that needs a password and has none.
use torrest_cpp.Prelude.{◌≡◌, refl, ◌↔◌, Option, none, some, [], bytes}
use torrest_cpp.Prelude.Int.{pos}
use torrest_cpp.Prelude.{ok, err}
use torrest_cpp.Settings.{
  Settings, ProxySettings, validate, validate_proxy, validate_if_any, validate_credentials, lt, gt,
  lte, gte, not_empty, cannot_be_empty,
}
use torrest_cpp.Settings.Validity.{IsValid, validate-eq-ok_iff}

abbrev settings : Option ProxySettings → Settings
settings proxy = record {
  listen_port = pos 6889;
  download_path = bytes "downloads";
  torrents_path = bytes "downloads/torrents";
  session_save = pos 30;
  max_download_rate = pos 0;
  max_upload_rate = pos 0;
  share_ratio_limit = pos 0;
  seed_time_ratio_limit = pos 0;
  seed_time_limit = pos 0;
  write_mode = pos 0;
  encryption_policy = pos 0;
  piece_wait_timeout = pos 60;
  piece_expiration = pos 5;
  service_log_level = pos 2;
  alerts_log_level = pos 5;
  api_log_level = pos 4;
  proxy = proxy;
}

abbrev proxy : ProxySettings
proxy = record {
  type = pos 3;
  port = pos 1080;
  hostname = bytes "host";
  username = bytes "user";
  password = [];
}

validate_runs : validate (pos 7) (settings none) ≡ ok tt
unfolding validate validate_if_any lt gt lte gte not_empty
validate_runs = refl

validate_refuses :
    validate (pos 7) (settings (some proxy)) ≡ err (bytes "password", cannot_be_empty)
unfolding validate validate_if_any validate_proxy validate_credentials lt gt lte gte not_empty
validate_refuses = refl

validate-eq-ok_iff_example :
    (validate (pos 7) (settings (some proxy)) ≡ ok tt) ↔ IsValid (pos 7) (settings (some proxy))
validate-eq-ok_iff_example = validate-eq-ok_iff (pos 7) (settings (some proxy))
