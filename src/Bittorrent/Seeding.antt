-- ===== src/Bittorrent/Seeding.antt =====
-- The seeding limits and `update_progress`: src/bittorrent/service.cpp. The torrents of the service are
-- given with what the session says of each.
pub mod Ratios
pub mod Reached
pub mod Progress
mod Tests
use torrest_cpp.Prelude.{
  ℕ, ◌+◌, ◌*◌, ◌/◌, Bool, true, false, not, ◌&&◌, ◌||◌, Option, none, some, List, [], ◌∷◌, ◌++◌,
  ltb, leb, ◌==◌, if◌then◌else◌,
}
use torrest_cpp.Prelude.Int.{ℤ, pos_part, sub_ℕ}
use torrest_cpp.Prelude.{Result, ok, ◌>>=◌, ◌>>◌}
use torrest_cpp.Bittorrent.Handle.{Handle, HandleCall}
use torrest_cpp.Bittorrent.Exceptions.{Exception}
use torrest_cpp.Bittorrent.Torrent.{Torrent, pause_torrent, verify_buffering_state}
use torrest_cpp.Bittorrent.Rates.{Rates, set_buffering_rate_limits}

-- How `status.progress`, a floating-point number, compares with 1.
pub data Done : Type 0 where
  below exactly above : Done

-- `libtorrent::torrent_status`, as far as it is read here.
pub record Status : Type 0 where
  pub progress : Done
  pub download_rate : ℕ
  pub upload_rate : ℕ
  pub total_wanted : ℕ
  pub total_wanted_done : ℕ
  pub seeding_duration : ℕ
  pub finished_duration : ℕ
  pub active_duration : ℕ
  pub all_time_download : ℕ
  pub all_time_upload : ℕ

pub record Limits : Type 0 where
  pub seed_time_limit : ℤ
  pub seed_time_ratio_limit : ℤ
  pub share_ratio_limit : ℤ

pub seed_time_reached : ℤ → ℕ → Bool
seed_time_reached limit seeding_time = ltb 0 (pos_part limit) && leb (pos_part limit) seeding_time

-- The download time is a difference and may be negative.
pub seed_time_ratio_reached : ℤ → ℤ → ℕ → Bool
seed_time_ratio_reached limit download_time seeding_time =
    ltb 0 (pos_part limit)
    && ltb 0 (pos_part download_time)
    && leb (pos_part limit) (seeding_time * 100 / pos_part download_time)

pub share_ratio_reached : ℤ → ℕ → ℕ → Bool
share_ratio_reached limit all_time_download all_time_upload =
    ltb 0 (pos_part limit)
    && ltb 0 all_time_download
    && leb (pos_part limit) (all_time_upload * 100 / all_time_download)

pub get_seeding_time : Status → ℕ
get_seeding_time st = elim st.progress [
  | exactly ↦ if st.seeding_duration == 0 then st.finished_duration else st.seeding_duration
  | below ↦ st.seeding_duration
  | above ↦ st.seeding_duration
]

-- The `if ... else if ...` of the three limits, each of which pauses the torrent.
pub limit_reached : Limits → Status → Bool
limit_reached l st =
    let seeding_time = get_seeding_time st in
    let download_time = sub_ℕ st.active_duration seeding_time in
    if seed_time_reached l.seed_time_limit seeding_time
    then true
    else if seed_time_ratio_reached l.seed_time_ratio_limit download_time seeding_time
    then true
    else share_ratio_reached l.share_ratio_limit st.all_time_download st.all_time_upload

pub record Entry : Type 0 where
  pub torrent : Torrent
  pub handle : Handle
  pub is_valid : Bool
  pub status : Status

-- The sums of `update_progress`.
pub record Totals : Type 0 where
  pub download_rate : ℕ
  pub upload_rate : ℕ
  pub wanted : ℕ
  pub wanted_done : ℕ
  pub has_files_buffering : Bool

pub stop_if : Bool → Torrent → Totals → Torrent × List HandleCall × Totals
stop_if true t s = let (p, cs) = pause_torrent t in (p, cs, s)
stop_if false t s = (t, [], s)

-- The `if (status.progress < 1)`.
pub finish_by : Done → Bool → Status → Torrent → Totals → Torrent × List HandleCall × Totals
unfolding stop_if
finish_by below reached st t s = (
  t,
  [],
  record s {
    wanted = s.wanted + st.total_wanted;
    wanted_done = s.wanted_done + st.total_wanted_done;
  },
)
finish_by exactly reached st t s = stop_if reached t s
finish_by above reached st t s = stop_if reached t s

-- A torrent that is not passed over, behind the check of its buffering state.
pub finish_torrent : Limits → Status → Torrent → Totals → Torrent × List HandleCall × Totals
unfolding finish_by
finish_torrent l st t s = finish_by st.progress (limit_reached l st) st t (record s {
  download_rate = s.download_rate + st.download_rate;
  upload_rate = s.upload_rate + st.upload_rate;
})

-- `mPaused || !mHasMetadata || !mHandle.is_valid()`
abbrev pub is_passed_over : Entry → Bool
is_passed_over e = e.torrent.is_paused || not e.torrent.has_metadata || not e.is_valid

-- The body of the loop.
pub update_torrent : Limits → Entry → Totals → Result Exception (Torrent × List HandleCall × Totals)
unfolding finish_torrent
update_torrent l e s =
    if is_passed_over e
    then ok (e.torrent, [], s)
    else verify_buffering_state e.handle e.torrent >>= λ (t, b). ok (
        finish_torrent l e.status t (record s { has_files_buffering = b || s.has_files_buffering }))

pub update_torrents :
    Limits → List Entry → Totals → Result Exception (List Torrent × List HandleCall × Totals)
unfolding update_torrent
update_torrents l [] s = ok ([], [], s)
update_torrents l (e ∷ es) s = do
  (t, cs, s2) ← update_torrent l e s
  (ts, ds, s3) ← update_torrents l es s2
  ok (t ∷ ts, cs ++ ds, s3)

-- What the service keeps: `mDownloadRate`, `mUploadRate`, and `mProgress` as the quotient that the
-- source computes, `none` for 100.
pub record Report : Type 0 where
  pub download_rate : ℕ
  pub upload_rate : ℕ
  pub progress : Option (ℕ × ℕ)

pub update_progress :
    Limits → List Entry → Rates → Result Exception (List Torrent × List HandleCall × Rates × Report)
unfolding update_torrents
update_progress l es r = do
  (ts, cs, s) ← update_torrents l es (record {
    download_rate = 0;
    upload_rate = 0;
    wanted = 0;
    wanted_done = 0;
    has_files_buffering = false;
  })
  ok (
    ts,
    cs,
    set_buffering_rate_limits (not s.has_files_buffering) r,
    record {
      download_rate = s.download_rate;
      upload_rate = s.upload_rate;
      progress = if ltb 0 s.wanted then some (s.wanted_done, s.wanted) else none;
    },
  )
