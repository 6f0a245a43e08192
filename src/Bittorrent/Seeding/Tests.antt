-- ===== src/Bittorrent/Seeding/Tests.antt =====
-- A torrent that has been seeded, and the theorems about limits at concrete inputs.
use torrest_cpp.Prelude.{◌≡◌, refl, ◌↔◌, Bool, true, false, not, List, [], ◌∷◌, arith, bytes}
use torrest_cpp.Prelude.Int.{pos}
use torrest_cpp.Prelude.{ok}
use torrest_cpp.Bittorrent.Handle.{Handle, HandleCall, seeding}
use torrest_cpp.Bittorrent.Missing.Laws.{IsConsistent}
use torrest_cpp.Bittorrent.Torrent.{Torrent}
use torrest_cpp.Bittorrent.Rates.{RateSettings, Rates, make_rates, set_buffering_rate_limits}
use torrest_cpp.Bittorrent.Rates.Laws.{InForce, constructed, buffered, Reachable-InForce}
use torrest_cpp.Bittorrent.Seeding.{Status, Limits, exactly, Entry, Report, update_progress}
use torrest_cpp.Bittorrent.Seeding.Progress.{AnyWaits, Stops, update_progress_lem}

abbrev handle : Handle
handle = record {
  have_piece = λ p. true;
  piece_size = λ p. 4;
  piece_priority = λ p. 4;
  file_progress = [];
  download_queue = [];
  flag_paused = false;
  flag_auto_managed = true;
  state = seeding;
}

abbrev torrent : Torrent
torrent = record {
  info_hash = bytes "ab";
  default_name = bytes "ab";
  files = [];
  pieces = [];
  is_paused = false;
  has_metadata = true;
  is_closed = false;
}

abbrev status : Status
status = record {
  progress = exactly;
  download_rate = 0;
  upload_rate = 7;
  total_wanted = 9;
  total_wanted_done = 9;
  seeding_duration = 0;
  finished_duration = 30;
  active_duration = 40;
  all_time_download = 9;
  all_time_upload = 20;
}

abbrev limits : Limits
limits = record {
  seed_time_limit = pos 0;
  seed_time_ratio_limit = pos 300;
  share_ratio_limit = pos 0;
}

abbrev entries : List Entry
entries = record { torrent = torrent; handle = handle; is_valid = true; status = status } ∷ []

abbrev settings : RateSettings
settings = record {
  limit_after_buffering = true;
  max_download_rate = pos 50;
  max_upload_rate = pos 10;
}

abbrev rates : Rates
rates = set_buffering_rate_limits false (make_rates settings (pos 0) (pos 0))

handle-IsConsistent : IsConsistent handle
handle-IsConsistent = record {
  had = λ p e. refl;
  within = λ p. omega arith;
  holds_some = λ p. omega arith;
}

update_progress_lem_example :
    (ts : List Torrent) × (cs : List HandleCall) × (is_buffering : Bool) × (report : Report)
    × (update_progress limits entries rates
        ≡ ok (ts, cs, set_buffering_rate_limits (not is_buffering) rates, report))
    × Stops limits entries ts
    × ((is_buffering ≡ true) ↔ AnyWaits entries)
update_progress_lem_example = update_progress_lem limits entries rates (handle-IsConsistent, tt)

Reachable-InForce_example : InForce rates
Reachable-InForce_example =
    Reachable-InForce (buffered false (constructed settings (pos 0) (pos 0)))
