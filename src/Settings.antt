-- ===== src/Settings.antt =====
-- The validation of the settings: src/settings/settings.cpp and settings.h, with the checks of
-- src/utils/validation.h. It is built with TORRENT_ABI_VERSION above 2. An enumeration read from JSON
-- may hold any integer. `n_levels` is `spdlog::level::n_levels`.
pub mod Validity
mod Tests
use torrest_cpp.Prelude.{
  ℕ, Bool, false, not, ◌||◌, Option, none, some, ◌==◌, if◌then◌else◌, Bytes, bytes, is_empty,
}
use torrest_cpp.Prelude.Int.{ℤ, pos, negsuc, ltb_ℤ, leb_ℤ}
use torrest_cpp.Prelude.{Result, ok, ◌>>=◌, ◌>>◌, throw_if}

-- `ValidationException`: what the setting must be. The message also names the setting.
pub data Complaint : Type 0 where
  must_be_less_than must_be_greater_than must_be_at_most must_be_at_least : ℤ → Complaint
  cannot_be_empty : Complaint

abbrev pub Invalid : Type 0
Invalid = Bytes × Complaint

abbrev pub Check : Type 0
Check = Result Invalid (Unit {0})

-- `LT`, `GT`, `LTE`, `GTE` and `NOT_EMPTY`
lt : Bytes → ℤ → ℤ → Check
lt name l x = throw_if (not (ltb_ℤ x l)) (name, must_be_less_than l)

gt : Bytes → ℤ → ℤ → Check
gt name l x = throw_if (not (ltb_ℤ l x)) (name, must_be_greater_than l)

lte : Bytes → ℤ → ℤ → Check
lte name l x = throw_if (not (leb_ℤ x l)) (name, must_be_at_most l)

gte : Bytes → ℤ → ℤ → Check
gte name l x = throw_if (not (leb_ℤ l x)) (name, must_be_at_least l)

not_empty : Bytes → Bytes → Check
not_empty name x = throw_if (is_empty x) (name, cannot_be_empty)

pub record ProxySettings : Type 0 where
  pub type : ℤ
  pub port : ℤ
  pub hostname : Bytes
  pub username : Bytes
  pub password : Bytes

-- The settings that are validated.
pub record Settings : Type 0 where
  pub listen_port : ℤ
  pub download_path : Bytes
  pub torrents_path : Bytes
  pub session_save : ℤ
  pub max_download_rate : ℤ
  pub max_upload_rate : ℤ
  pub share_ratio_limit : ℤ
  pub seed_time_ratio_limit : ℤ
  pub seed_time_limit : ℤ
  pub write_mode : ℤ
  pub encryption_policy : ℤ
  pub piece_wait_timeout : ℤ
  pub piece_expiration : ℤ
  pub service_log_level : ℤ
  pub alerts_log_level : ℤ
  pub api_log_level : ℤ
  pub proxy : Option ProxySettings

-- `==` on `ProxyType`
abbrev pub is_type : ℤ → ℕ → Bool
is_type (pos n) t = n == t
is_type (negsuc n) t = false

-- The `if ... else if ...` by the type: 1 is SOCKS4, 3 and 5 are SOCKS5 and HTTP with a password.
validate_credentials : ProxySettings → Check
unfolding not_empty
validate_credentials p =
    let with_password : Check =
      not_empty (bytes "username") p.username >> not_empty (bytes "password") p.password in
    if is_type p.type 1
    then not_empty (bytes "username") p.username
    else if is_type p.type 3 || is_type p.type 5
    then with_password
    else ok tt

pub validate_proxy : ProxySettings → Check
validate_proxy p =
    let connected : Check = (do
      gte (bytes "port") (pos 0) p.port
      lte (bytes "port") (pos 65535) p.port
      not_empty (bytes "hostname") p.hostname
      validate_credentials p) in
    do
      gte (bytes "type") (pos 0) p.type
      lt (bytes "type") (pos 7) p.type
      if is_type p.type 0 then ok tt else connected

validate_if_any : Option ProxySettings → Check
validate_if_any none = ok tt
validate_if_any (some p) = validate_proxy p

pub validate : ℤ → Settings → Check
validate n_levels s = do
  gte (bytes "listen_port") (pos 0) s.listen_port
  lte (bytes "listen_port") (pos 65535) s.listen_port
  not_empty (bytes "download_path") s.download_path
  not_empty (bytes "torrents_path") s.torrents_path
  gt (bytes "session_save") (pos 0) s.session_save
  gte (bytes "max_download_rate") (pos 0) s.max_download_rate
  gte (bytes "max_upload_rate") (pos 0) s.max_upload_rate
  gte (bytes "share_ratio_limit") (pos 0) s.share_ratio_limit
  gte (bytes "seed_time_ratio_limit") (pos 0) s.seed_time_ratio_limit
  gte (bytes "seed_time_limit") (pos 0) s.seed_time_limit
  gte (bytes "write_mode") (pos 0) s.write_mode
  lt (bytes "write_mode") (pos 4) s.write_mode
  gte (bytes "encryption_policy") (pos 0) s.encryption_policy
  lt (bytes "encryption_policy") (pos 3) s.encryption_policy
  gte (bytes "piece_wait_timeout") (pos 0) s.piece_wait_timeout
  gt (bytes "piece_expiration") (pos 0) s.piece_expiration
  gte (bytes "service_log_level") (pos 0) s.service_log_level
  lt (bytes "service_log_level") n_levels s.service_log_level
  gte (bytes "alerts_log_level") (pos 0) s.alerts_log_level
  lt (bytes "alerts_log_level") n_levels s.alerts_log_level
  gte (bytes "api_log_level") (pos 0) s.api_log_level
  lt (bytes "api_log_level") n_levels s.api_log_level
  validate_if_any s.proxy
