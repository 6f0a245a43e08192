-- ===== src/Bittorrent/Rates.antt =====
-- The rate limits of the session: `set_buffering_rate_limits`, and what `reconfigure`, `configure` and
-- the constructor of src/bittorrent/service.cpp do to the rates.
pub mod Laws
use torrest_cpp.Prelude.{Bool, true, false, not, ◌&&◌, ◌||◌, if◌then◌else◌}
use torrest_cpp.Prelude.Int.{ℤ, pos}

-- The settings that are read here; `max_...` are `int`s, as libtorrent takes them.
pub record RateSettings : Type 0 where
  pub limit_after_buffering : Bool
  pub max_download_rate : ℤ
  pub max_upload_rate : ℤ

-- `mSettings`, `mRateLimited` and the limits in the session's own settings.
pub record Rates : Type 0 where
  pub settings : RateSettings
  pub rate_limited : Bool
  pub download_rate_limit : ℤ
  pub upload_rate_limit : ℤ

-- `!=` on `bool`
abbrev pub differs : Bool → Bool → Bool
differs true b = not b
differs false b = b

pub set_buffering_rate_limits : Bool → Rates → Rates
set_buffering_rate_limits enable r =
    if r.settings.limit_after_buffering && differs r.rate_limited enable
    then record r {
      download_rate_limit = if enable then r.settings.max_download_rate else pos 0;
      upload_rate_limit = if enable then r.settings.max_upload_rate else pos 0;
      rate_limited = enable;
    }
    else r

-- `configure`, which leaves the session's limits as they are unless it sets them.
pub configure : RateSettings → Rates → Rates
configure s r =
    if not s.limit_after_buffering || r.rate_limited
    then record r {
      download_rate_limit = s.max_download_rate;
      upload_rate_limit = s.max_upload_rate;
    }
    else r

pub reconfigure : RateSettings → Rates → Rates
unfolding configure
reconfigure s r =
    let c = configure s r in
    record c { settings = s; rate_limited = r.rate_limited || not s.limit_after_buffering }

-- The constructor of the service, for a session whose limits libtorrent starts with.
pub make_rates : RateSettings → ℤ → ℤ → Rates
unfolding configure
make_rates s download upload = configure s (record {
  settings = s;
  rate_limited = true;
  download_rate_limit = download;
  upload_rate_limit = upload;
})
