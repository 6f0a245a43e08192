-- ===== src/Bittorrent/Torrent/Reports.antt =====
-- The states that a torrent reports.
use torrest_cpp.Prelude.{
  ◌≡◌, refl, arith, sym, subst, ◌↔◌, ◌⊎◌, inl, inr, Bool-cases, Bool, true, false, ◌&&◌, List, [],
  ◌∷◌, if◌then◌else◌,
}
use torrest_cpp.Bittorrent.Handle.{Handle, HandleState}
use torrest_cpp.Bittorrent.File.{File}
use torrest_cpp.Bittorrent.State.{
  State, get_torrent_state, of_handle_state, paused, queued, finding, checking, downloading,
  finished, seeding, allocating, checking_resume_data, buffering,
}
use torrest_cpp.Bittorrent.Torrent.{Torrent, any_buffering, report_buffering, get_state}
use torrest_cpp.Bittorrent.Torrent.Lifecycle.{get_state_lem_of}

-- Some file of the list is buffering.
abbrev pub HasBuffering : List File → Type 0
HasBuffering [] = ⊥
HasBuffering (f ∷ fs) = (f.is_buffering ≡ true) ⊎ HasBuffering fs

-- The states by libtorrent's.
pub data Named : HandleState → State → Type 0 where
  checks_files : Named HandleState.checking_files State.checking
  gets_metadata : Named HandleState.downloading_metadata State.finding
  downloads : Named HandleState.downloading State.downloading
  is_finished : Named HandleState.finished State.finished
  seeds : Named HandleState.seeding State.seeding
  checks_resume_data : Named HandleState.checking_resume_data State.checking_resume_data
  allocates : Named HandleState.unused_allocating State.allocating
  any_other : Named HandleState.unknown State.queued

-- What a torrent reports that is neither paused nor queued and has metadata.
pub data ReportsActive (reports_buffering : Bool) (s : HandleState) (fs : List File)
    : State → Type 0 where
  is_buffered :
      reports_buffering ≡ true
      → s ≡ HandleState.downloading
      → HasBuffering fs
      → ReportsActive reports_buffering s fs buffering
  as_named :
      (x : State)
      → ¬ ((reports_buffering ≡ true) × (s ≡ HandleState.downloading) × HasBuffering fs)
      → Named s x
      → ReportsActive reports_buffering s fs x

pub data Reports (reports_buffering : Bool) (h : Handle) (t : Torrent) : State → Type 0 where
  reports_paused : t.is_paused ≡ true → Reports reports_buffering h t paused
  reports_queued :
      t.is_paused ≡ false
      → h.flag_paused ≡ true
      → h.flag_auto_managed ≡ true
      → Reports reports_buffering h t queued
  reports_finding :
      t.is_paused ≡ false
      → ¬ ((h.flag_paused ≡ true) × (h.flag_auto_managed ≡ true))
      → t.has_metadata ≡ false
      → Reports reports_buffering h t finding
  reports_active :
      (x : State)
      → t.is_paused ≡ false
      → ¬ ((h.flag_paused ≡ true) × (h.flag_auto_managed ≡ true))
      → t.has_metadata ≡ true
      → ReportsActive reports_buffering h.state t.files x
      → Reports reports_buffering h t x

any_buffering_iff : (fs : List File) → (any_buffering fs ≡ true) ↔ HasBuffering fs
unfolding any_buffering
any_buffering_iff [] = (λ e. absurd (cc), λ e. absurd e)
any_buffering_iff (f ∷ fs) = elim (Bool-cases f.is_buffering) [
  | inl is ↦ rw is (λ e. inl refl, λ b. refl)
  | inr isnt ↦ rw isnt (
    λ e. inr ((any_buffering_iff fs).0 e),
    λ b. elim b [ inl e ↦ absurd (cc) | inr rest ↦ (any_buffering_iff fs).1 rest ],
  )
]

of_handle_state-Named : (s : HandleState) → Named s (of_handle_state s)
unfolding of_handle_state
of_handle_state-Named HandleState.checking_files = checks_files
of_handle_state-Named HandleState.downloading_metadata = gets_metadata
of_handle_state-Named HandleState.downloading = downloads
of_handle_state-Named HandleState.finished = is_finished
of_handle_state-Named HandleState.seeding = seeds
of_handle_state-Named HandleState.checking_resume_data = checks_resume_data
of_handle_state-Named HandleState.unused_allocating = allocates
of_handle_state-Named HandleState.unknown = any_other

report_buffering-ReportsActive :
    (b : Bool) (s : HandleState) (fs : List File)
    → ReportsActive b s fs (report_buffering (b && any_buffering fs) (of_handle_state s))
unfolding report_buffering of_handle_state
report_buffering-ReportsActive b HandleState.checking_files fs =
    as_named checking (λ k. absurd (let e = k.1 in cc)) checks_files
report_buffering-ReportsActive b HandleState.downloading_metadata fs =
    as_named finding (λ k. absurd (let e = k.1 in cc)) gets_metadata
report_buffering-ReportsActive b HandleState.finished fs =
    as_named finished (λ k. absurd (let e = k.1 in cc)) is_finished
report_buffering-ReportsActive b HandleState.seeding fs =
    as_named seeding (λ k. absurd (let e = k.1 in cc)) seeds
report_buffering-ReportsActive b HandleState.checking_resume_data fs =
    as_named checking_resume_data (λ k. absurd (let e = k.1 in cc)) checks_resume_data
report_buffering-ReportsActive b HandleState.unused_allocating fs =
    as_named allocating (λ k. absurd (let e = k.1 in cc)) allocates
report_buffering-ReportsActive b HandleState.unknown fs =
    as_named queued (λ k. absurd (let e = k.1 in cc)) any_other
report_buffering-ReportsActive false HandleState.downloading fs =
    as_named downloading (λ k. absurd (let e = k.0 in cc)) downloads
report_buffering-ReportsActive true HandleState.downloading fs =
    elim (Bool-cases (any_buffering fs)) [
      | inl is ↦ rw is (is_buffered refl refl ((any_buffering_iff fs).0 is))
      | inr isnt ↦ rw isnt (
          as_named downloading (λ k. absurd (let e = (any_buffering_iff fs).1 k.2 in cc)) downloads)
    ]

ladder-Reports :
    (b : Bool) (h : Handle) (t : Torrent) (is_paused is_queued has_metadata : Bool) (x : State)
    → t.is_paused ≡ is_paused
    → (h.flag_paused && h.flag_auto_managed) ≡ is_queued
    → t.has_metadata ≡ has_metadata
    → ReportsActive b h.state t.files x
    → Reports b h t (
        if is_paused
        then paused
        else if is_queued
        then queued
        else if has_metadata
        then x
        else finding)
ladder-Reports b h t true q m x p k e a = reports_paused p
ladder-Reports b h t false true m x p k e a = reports_queued p (ground arith) (ground arith)
ladder-Reports b h t false false true x p k e a =
    reports_active x p (λ f. absurd (ground (arith, k, f.0, f.1))) e a
ladder-Reports b h t false false false x p k e a =
    reports_finding p (λ f. absurd (ground (arith, k, f.0, f.1))) e

-- What a torrent reports: paused before anything else, then queued if libtorrent has paused it, then
-- that its metadata is missing. Otherwise it is buffering where the build reports that, libtorrent is
-- downloading and some file is buffering, and else libtorrent's own state, where an unknown one
-- counts as queued.
pub get_state-Reports :
    (buffering_status : Bool) (h : Handle) (t : Torrent)
    → Reports buffering_status h t (get_state buffering_status h t)
unfolding get_state get_torrent_state
get_state-Reports b h t =
    let d = b && any_buffering t.files in
    let q = h.flag_paused && h.flag_auto_managed in
    subst (Reports b h t)
      (sym (get_state_lem_of d t.is_paused q t.has_metadata (of_handle_state h.state)))
      (ladder-Reports b h t t.is_paused q t.has_metadata _ refl refl refl
        (report_buffering-ReportsActive b h.state t.files))
