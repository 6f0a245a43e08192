-- ===== src/Bittorrent/Torrent/Lifecycle.antt =====
-- Pausing and resuming a torrent.
use torrest_cpp.Prelude.{
  ◌≡◌, refl, sym, ◌∙◌, ◌≢◌, Bool, true, false, not, ◌&&◌, List, [], ◌∷◌, if◌then◌else◌, Bytes,
}
use torrest_cpp.Bittorrent.Handle.{
  Handle, HandleState, HandleCall, unset_auto_managed, set_auto_managed, pause,
}
use torrest_cpp.Bittorrent.State.{
  State, get_torrent_state, of_handle_state, paused, queued, finding,
}
use torrest_cpp.Bittorrent.Torrent.{
  Torrent, make_torrent, pause_torrent, resume, any_buffering, report_buffering, get_state,
}

-- The handle's flags after the calls. Resuming sets `auto_managed` alone: libtorrent then clears
-- `paused` itself when the torrent's turn comes.
abbrev pub flags_after : List HandleCall → Bool × Bool → Bool × Bool
flags_after [] fl = fl
flags_after (unset_auto_managed ∷ cs) (p, a) = flags_after cs (p, false)
flags_after (set_auto_managed ∷ cs) (p, a) = flags_after cs (p, true)
flags_after (pause ∷ cs) (p, a) = flags_after cs (true, a)
flags_after (_ ∷ cs) fl = flags_after cs fl

abbrev pub with_flags : Handle → Bool × Bool → Handle
with_flags h (p, a) = record h { flag_paused = p; flag_auto_managed = a }

-- A torrent's `mPaused` is what its constructor would read from the flags.
abbrev pub Agrees : Handle → Torrent → Type 0
Agrees h t = t.is_paused ≡ (h.flag_paused && not h.flag_auto_managed)

and_false : (b : Bool) → false ≡ (b && false)
and_false true = refl
and_false false = refl

report_buffering-ne-paused :
    (b : Bool) (s : HandleState) → report_buffering b (of_handle_state s) ≢ paused
unfolding report_buffering of_handle_state
report_buffering-ne-paused b HandleState.checking_files e = absurd (cc)
report_buffering-ne-paused b HandleState.downloading_metadata e = absurd (cc)
report_buffering-ne-paused true HandleState.downloading e = absurd (cc)
report_buffering-ne-paused false HandleState.downloading e = absurd (cc)
report_buffering-ne-paused b HandleState.finished e = absurd (cc)
report_buffering-ne-paused b HandleState.seeding e = absurd (cc)
report_buffering-ne-paused b HandleState.checking_resume_data e = absurd (cc)
report_buffering-ne-paused b HandleState.unused_allocating e = absurd (cc)
report_buffering-ne-paused b HandleState.unknown e = absurd (cc)

-- The ladder of `get_state` commutes with the change of a download into buffering.
pub get_state_lem_of :
    (d is_paused is_queued has_metadata : Bool) (s : State)
    → report_buffering d (
        if is_paused
        then paused
        else if is_queued
        then queued
        else if has_metadata
        then s
        else finding)
      ≡ (if is_paused
          then paused
          else if is_queued
          then queued
          else if has_metadata
          then report_buffering d s
          else finding)
unfolding report_buffering
get_state_lem_of d true q m s = refl
get_state_lem_of d false true m s = refl
get_state_lem_of d false false true s = refl
get_state_lem_of d false false false s = refl

ladder-ne-paused :
    (is_queued has_metadata : Bool) (s : State)
    → s ≢ paused
    → (if is_queued then queued else if has_metadata then s else finding) ≢ paused
ladder-ne-paused true m s n e = absurd (cc)
ladder-ne-paused false true s n e = n e
ladder-ne-paused false false s n e = absurd (cc)

resumed-ne-paused : (b : Bool) (h : Handle) (t : Torrent) → get_state b h (resume t).0 ≢ paused
unfolding get_state get_torrent_state resume
resumed-ne-paused b h t e =
    let d = b && any_buffering t.files in
    let q = h.flag_paused && h.flag_auto_managed in
    let ladder = get_state_lem_of d false q t.has_metadata (of_handle_state h.state) in
    ladder-ne-paused q t.has_metadata (report_buffering d (of_handle_state h.state))
      (report_buffering-ne-paused d h.state) (sym ladder ∙ e)

-- A new torrent and a paused one agree with the handle's flags, a resumed one too, whatever the flags
-- were; a paused torrent reports that it is paused, a resumed one never does.
pub lifecycle :
    (h : Handle) (t : Torrent) (info_hash name : Bytes) (buffering_status : Bool)
    → Agrees h (make_torrent h info_hash name)
      × Agrees
          (with_flags h (flags_after (pause_torrent t).1 (h.flag_paused, h.flag_auto_managed)))
          (pause_torrent t).0
      × Agrees
          (with_flags h (flags_after (resume t).1 (h.flag_paused, h.flag_auto_managed)))
          (resume t).0
      × (get_state buffering_status h (pause_torrent t).0 ≡ paused)
      × (get_state buffering_status h (resume t).0 ≢ paused)
unfolding make_torrent pause_torrent resume get_state get_torrent_state
lifecycle h t info_hash name b =
    (refl, refl, and_false h.flag_paused, refl, resumed-ne-paused b h t)
