-- ===== src/Bittorrent/Seeding/Progress.antt =====
-- Which torrents a round of `update_progress` pauses, and when it limits the rates.
use torrest_cpp.Prelude.{
  ◌+◌, ◌≡◌, ◌≢◌, suc, refl, sym, ap, ◌∙◌, ◌↔◌, ◌⊎◌, inl, inr, Bool, true, false, not, ◌&&◌, ◌||◌,
  none, some, List, [], ◌∷◌, ◌++◌, arith, ltb, if◌then◌else◌, Bool-cases, length,
}
use torrest_cpp.Prelude.{ok}
use torrest_cpp.Bittorrent.Handle.{Handle, HandleCall}
use torrest_cpp.Bittorrent.Missing.Laws.{IsConsistent}
use torrest_cpp.Bittorrent.Torrent.{Torrent, pause_torrent}
use torrest_cpp.Bittorrent.Torrent.Files.{Waits, AllVerified, verify_buffering_state_lem}
use torrest_cpp.Bittorrent.File.{File}
use torrest_cpp.Bittorrent.Seeding.Reached.{
  TakesPart, IsToPause, TakesPart-iff, limit_reached-HasReached,
}
use torrest_cpp.Bittorrent.Rates.{Rates, set_buffering_rate_limits}
use torrest_cpp.Bittorrent.Seeding.{
  Done, below, exactly, above, Status, Limits, limit_reached, Entry, Totals, stop_if, finish_by,
  finish_torrent, is_passed_over, update_torrent, update_torrents, Report, update_progress,
}

abbrev pub is_done : Done → Bool
is_done below = false
is_done exactly = true
is_done above = true

or_false : (b : Bool) → (b || false) ≡ b
or_false true = refl
or_false false = refl

or_true : (a b : Bool) → b ≡ true → (a || b) ≡ true
or_true true b e = refl
or_true false b e = e

AllVerified-length : (h : Handle) (fs gs : List File) → AllVerified h fs gs → length gs ≡ length fs
AllVerified-length h [] [] all = refl
AllVerified-length h [] (g ∷ gs) all = absurd all
AllVerified-length h (f ∷ fs) [] all = absurd all
AllVerified-length h (f ∷ fs) (g ∷ gs) all = ap suc (AllVerified-length h fs gs all.1)

-- The tests of the code for a pause.
abbrev is_to_pause : Limits → Entry → Bool
is_to_pause l e = not (is_passed_over e) && (is_done e.status.progress && limit_reached l e.status)

is_done_iff : (d : Done) → (is_done d ≡ true) ↔ (d ≢ below)
is_done_iff below = (λ e. absurd (cc), λ k. absurd (k refl))
is_done_iff exactly = (λ e k. absurd (cc), λ k. refl)
is_done_iff above = (λ e k. absurd (cc), λ k. refl)

is_to_pause_iff : (l : Limits) (e : Entry) → (is_to_pause l e ≡ true) ↔ IsToPause l e
is_to_pause_iff l e = (
  λ k. (
    (TakesPart-iff e).0 (ground arith),
    (is_done_iff e.status.progress).0 (ground arith),
    (limit_reached-HasReached l e.status).0 (ground arith),
  ),
  λ (part, complete, reached).
      let a = (TakesPart-iff e).1 part in
      let b = (is_done_iff e.status.progress).1 complete in
      let c = (limit_reached-HasReached l e.status).1 reached in rw (a, b, c) refl,
)

-- A torrent is paused behind the round.
abbrev pub IsPaused : Limits → Entry → Type 0
IsPaused l e = (e.torrent.is_paused ≡ true) ⊎ IsToPause l e

IsPaused-iff :
    (l : Limits) (e : Entry) (b : Bool)
    → b ≡ (e.torrent.is_paused || is_to_pause l e)
    → (b ≡ true) ↔ IsPaused l e
IsPaused-iff l e b eq = (
  λ t. elim (Bool-cases e.torrent.is_paused) [
    | inl was ↦ inl was
    | inr was ↦ inr ((is_to_pause_iff l e).0 (ground arith))
  ],
  λ p. elim p [
    | inl was ↦ eq ∙ rw was refl
    | inr now ↦ eq ∙ or_true e.torrent.is_paused (is_to_pause l e) ((is_to_pause_iff l e).1 now)
  ],
)

-- Of each torrent, what a round may change.
abbrev pub Stops : Limits → List Entry → List Torrent → Type 0
Stops l [] [] = Unit {0}
Stops l (e ∷ es) (t ∷ ts) =
    ((t.is_paused ≡ true) ↔ IsPaused l e)
    × (t.info_hash ≡ e.torrent.info_hash)
    × (length t.files ≡ length e.torrent.files)
    × Stops l es ts
Stops l _ _ = ⊥

-- A torrent that takes part has a file that is buffering and waits for a piece.
abbrev pub AnyWaits : List Entry → Type 0
AnyWaits [] = ⊥
AnyWaits (e ∷ es) = (TakesPart e × Waits e.handle e.torrent.files) ⊎ AnyWaits es

abbrev pub AllConsistent : List Entry → Type 0
AllConsistent [] = Unit {0}
AllConsistent (e ∷ es) = IsConsistent e.handle × AllConsistent es

finish_by_lem :
    (d : Done) (reached : Bool) (st : Status) (t : Torrent) (s : Totals)
    → ((finish_by d reached st t s).0.is_paused ≡ (t.is_paused || (is_done d && reached)))
      × ((finish_by d reached st t s).0.info_hash ≡ t.info_hash)
      × ((finish_by d reached st t s).0.files ≡ t.files)
      × ((finish_by d reached st t s).2.has_files_buffering ≡ s.has_files_buffering)
unfolding finish_by stop_if pause_torrent
finish_by_lem below reached st t s = (ground arith, refl, refl, refl)
finish_by_lem exactly true st t s = (ground arith, refl, refl, refl)
finish_by_lem exactly false st t s = (ground arith, refl, refl, refl)
finish_by_lem above true st t s = (ground arith, refl, refl, refl)
finish_by_lem above false st t s = (ground arith, refl, refl, refl)

update_torrent_lem :
    (l : Limits) (e : Entry) (s : Totals)
    → IsConsistent e.handle
    → (t : Torrent) × (cs : List HandleCall) × (s2 : Totals) × (update_torrent l e s
        ≡ ok (t, cs, s2))
      × (t.is_paused ≡ (e.torrent.is_paused || is_to_pause l e))
      × (t.info_hash ≡ e.torrent.info_hash)
      × (length t.files ≡ length e.torrent.files)
      × ((s2.has_files_buffering ≡ true)
          ↔ ((TakesPart e × Waits e.handle e.torrent.files) ⊎ (s.has_files_buffering ≡ true)))
unfolding update_torrent finish_torrent
update_torrent_lem l e s c = elim (Bool-cases (is_passed_over e)) [
  | inl over ↦ (
    e.torrent,
    [],
    s,
    rw over refl,
    rw over (sym (or_false e.torrent.is_paused)),
    refl,
    refl,
    (
      (λ h. inr h),
      λ h. elim h [ inl x ↦ absurd (let k = (TakesPart-iff e).1 x.0 in cc) | inr x ↦ x ],
    ),
  )
  | inr takes_part ↦
      let (gs, b, eq, iff, all) = verify_buffering_state_lem e.handle e.torrent c in
      let t : Torrent = record e.torrent { files = gs } in
      let s2 : Totals = record s {
        has_files_buffering = b || s.has_files_buffering;
        download_rate = s.download_rate + e.status.download_rate;
        upload_rate = s.upload_rate + e.status.upload_rate;
      } in
      let d = e.status.progress in
      let reached = limit_reached l e.status in
      let (paused_iff, hash, files, any) = finish_by_lem d reached e.status t s2 in
      let out = finish_by d reached e.status t s2 in
      (
        out.0,
        out.1,
        out.2,
        rw (takes_part, eq) refl,
        rw takes_part paused_iff,
        hash,
        ap length files ∙ AllVerified-length e.handle e.torrent.files gs all,
        (
          (λ h. elim (Bool-cases b) [
            | inl yes_b ↦ inl ((TakesPart-iff e).0 takes_part, iff.0 yes_b)
            | inr no_b ↦ inr (sym (rw no_b refl) ∙ (sym any ∙ h))
          ]),
          λ h. any ∙ elim h [
            | inl x ↦ let is_b = iff.1 x.1 in rw is_b refl
            | inr x ↦ or_true b s.has_files_buffering x
          ],
        ),
      )
]

update_torrents_lem :
    (l : Limits) (es : List Entry) (s : Totals)
    → AllConsistent es
    → (ts : List Torrent) × (cs : List HandleCall) × (s2 : Totals) × (update_torrents l es s
        ≡ ok (ts, cs, s2))
      × Stops l es ts
      × ((s2.has_files_buffering ≡ true) ↔ (AnyWaits es ⊎ (s.has_files_buffering ≡ true)))
unfolding update_torrents
update_torrents_lem l [] s c =
    ([], [], s, refl, tt, ((λ h. inr h), λ h. elim h [ inl x ↦ absurd x | inr x ↦ x ]))
update_torrents_lem l (e ∷ es) s c =
    let (t, cs, s2, eq, stop, hash, files, iff) = update_torrent_lem l e s c.0 in
    let (ts, ds, s3, eqs, stops, iffs) = update_torrents_lem l es s2 c.1 in
    (
      t ∷ ts,
      cs ++ ds,
      s3,
      rw (eq, eqs) refl,
      (IsPaused-iff l e t.is_paused stop, hash, files, stops),
      (
        (λ h. elim (iffs.0 h) [
          | inl later ↦ inl (inr later)
          | inr before ↦ elim (iff.0 before) [ inl here ↦ inl (inl here) | inr old ↦ inr old ]
        ]),
        λ h. iffs.1 (elim h [
          | inl w ↦ elim w [ inl here ↦ inr (iff.1 (inl here)) | inr later ↦ inl later ]
          | inr old ↦ inr (iff.1 (inr old))
        ]),
      ),
    )

-- With consistent download queues a round always completes. It pauses exactly the torrents that are not
-- paused, have metadata and a valid handle, are complete, and have reached a seeding limit that is set:
-- they have seeded for the time, or their seeding time is the percentage of the time before it, or their
-- upload that of the download; it resumes none and loses none. It tells `set_buffering_rate_limits` to
-- lift the limits exactly when a torrent that takes part has a file that is buffering and waits for a
-- piece.
pub update_progress_lem :
    (l : Limits) (es : List Entry) (r : Rates)
    → AllConsistent es
    → (ts : List Torrent) × (cs : List HandleCall) × (is_buffering : Bool) × (report : Report)
      × (update_progress l es r
          ≡ ok (ts, cs, set_buffering_rate_limits (not is_buffering) r, report))
      × Stops l es ts
      × ((is_buffering ≡ true) ↔ AnyWaits es)
unfolding update_progress
update_progress_lem l es r c =
    let zeros : Totals = record {
      download_rate = 0;
      upload_rate = 0;
      wanted = 0;
      wanted_done = 0;
      has_files_buffering = false;
    } in
    let (ts, cs, s, eq, stops, iff) = update_torrents_lem l es zeros c in
    let report : Report = record {
      download_rate = s.download_rate;
      upload_rate = s.upload_rate;
      progress = if ltb 0 s.wanted then some (s.wanted_done, s.wanted) else none;
    } in
    (
      ts,
      cs,
      s.has_files_buffering,
      report,
      rw eq refl,
      stops,
      ((λ h. elim (iff.0 h) [ inl w ↦ w | inr x ↦ absurd (cc) ]), λ w. iff.1 (inl w)),
    )
