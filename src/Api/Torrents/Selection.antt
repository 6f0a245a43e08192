-- ===== src/Api/Torrents/Selection.antt =====
-- Which files a priority is set on.
use torrest_cpp.Prelude.{
  ℕ, ◌≡◌, refl, sym, ap, subst, ◌∙◌, ◌≢◌, ◌⊎◌, inl, inr, Bool, true, false, not, none, some, List,
  [], ◌∷◌, ◌++◌, if◌then◌else◌, Bool-cases, Option-cases, Bytes, bytes, is_empty,
}
use torrest_cpp.Prelude.{ok, err}
use torrest_cpp.Text.{starts_with}
use torrest_cpp.Text.Join.{starts_with_iff}
use torrest_cpp.Bittorrent.Handle.{Handle, HandleCall, set_file_priority}
use torrest_cpp.Bittorrent.Exceptions.{invalid_info_hash, no_metadata}
use torrest_cpp.Bittorrent.File.{File}
use torrest_cpp.Bittorrent.File
use torrest_cpp.Bittorrent.Service.{Service, find_torrent, must_find_torrent}
use torrest_cpp.Bittorrent.Torrent.{Torrent}
use torrest_cpp.Bittorrent.Torrent
use torrest_cpp.Bittorrent.Torrent.Files.{with_priority, priority_calls, set_priority_lem}
use torrest_cpp.Api.Errors.{bittorrent}
use torrest_cpp.Bittorrent.Torrent.Known.{get_files_known, get_files_unknown}
use torrest_cpp.Bittorrent.Service.Store.{with_torrent, Replaced, with_torrent-Replaced}
use torrest_cpp.Api.Torrents.{Change, set_selected, set_prefixed, set_whole, set_priority}

abbrev pub prioritised : ℕ → File → File
prioritised p f = record f {
  priority = p;
  is_buffering = false;
  buffer_size = 0;
  buffer_pieces = [];
}

-- The files after the priority is set on those whose path has the prefix, and the calls.
pub data Chosen (p : ℕ) (prefix : Bytes) : List File → List File → List HandleCall → Type 0 where
  end : Chosen p prefix [] [] []
  hit :
      (f : File) (r : Bytes) {fs gs : List File} {cs : List HandleCall}
      → f.path ≡ prefix ++ r
      → Chosen p prefix fs gs cs
      → Chosen p prefix (f ∷ fs) (prioritised p f ∷ gs) (set_file_priority f.index p ∷ cs)
  miss :
      (f : File) {fs gs : List File} {cs : List HandleCall}
      → ¬ ((r : Bytes) × (f.path ≡ prefix ++ r))
      → Chosen p prefix fs gs cs
      → Chosen p prefix (f ∷ fs) (f ∷ gs) cs

set_selected-Chosen :
    (h : Handle) (p : ℕ) (prefix : Bytes) (fs : List File)
    → (gs : List File) × (cs : List HandleCall) × (set_selected h p prefix fs
        ≡ ok (gs, cs, not (is_empty cs)))
      × Chosen p prefix fs gs cs
unfolding set_selected File.set_priority
set_selected-Chosen h p prefix [] = ([], [], refl, end)
set_selected-Chosen h p prefix (f ∷ fs) =
    let (gs, cs, ran, chosen) = set_selected-Chosen h p prefix fs in
    elim (Bool-cases (starts_with f.path prefix)) [
      | inl e ↦
          let (r, path) = (starts_with_iff f.path prefix).0 e in
          (
            prioritised p f ∷ gs,
            set_file_priority f.index p ∷ cs,
            rw (e, ran) refl,
            hit f r path chosen,
          )
      | inr e ↦ (
        f ∷ gs,
        cs,
        rw (e, ran) refl,
        miss f (λ k. let t = (starts_with_iff f.path prefix).1 k in absurd (cc)) chosen,
      )
    ]

whole-Chosen : (p : ℕ) (fs : List File) → Chosen p [] fs (with_priority p fs) (priority_calls p fs)
whole-Chosen p [] = end
whole-Chosen p (f ∷ fs) = hit f f.path refl (whole-Chosen p fs)

is_empty-nil : (s : Bytes) → is_empty s ≡ true → s ≡ []
is_empty-nil [] e = refl
is_empty-nil (c ∷ s) e = absurd (cc)

set_whole_known :
    (h : Handle) (p : ℕ) (t : Torrent)
    → t.has_metadata ≡ true
    → Torrent.set_priority h p t
      ≡ ok (record t { files = with_priority p t.files }, priority_calls p t.files)
set_whole_known h p t meta = set_priority_lem h p t ∙ simp meta refl

set_whole_unknown :
    (h : Handle) (p : ℕ) (t : Torrent)
    → t.has_metadata ≡ false
    → Torrent.set_priority h p t ≡ err no_metadata
set_whole_unknown h p t unknown = set_priority_lem h p t ∙ simp unknown refl

Chosen-unchanged : (p : ℕ) (prefix : Bytes) {fs gs : List File} → Chosen p prefix fs gs [] → gs ≡ fs
Chosen-unchanged p prefix end = refl
Chosen-unchanged p prefix (miss f no_prefix chosen) =
    ap (λ l. f ∷ l) (Chosen-unchanged p prefix chosen)

module _ (iequals : Bytes → Bytes → Bool) (h : Bytes) (p : ℕ) (prefix message : Bytes)
    (s : Service) where
  -- What becomes of the service, by the torrent and the files that are chosen.
  pub data Selects : Change → Type 0 where
    unknown_torrent :
        find_torrent iequals h s.torrents ≡ none → Selects (err (bittorrent invalid_info_hash))
    without_metadata :
        (t : Torrent)
        → find_torrent iequals h s.torrents ≡ some t
        → t.has_metadata ≡ false
        → Selects (err (bittorrent no_metadata))
    selected :
        (t : Torrent) (gs : List File) (s2 : Service) (cs : List HandleCall)
        → find_torrent iequals h s.torrents ≡ some t
        → t.has_metadata ≡ true
        → Chosen p prefix t.files gs cs
        → (prefix ≡ []) ⊎ (cs ≢ [])
        → Replaced iequals h t (record t { files = gs }) s s2
        → Selects (ok ((200, message), s2, cs))
    unmatched :
        (t : Torrent) (s2 : Service)
        → find_torrent iequals h s.torrents ≡ some t
        → t.has_metadata ≡ true
        → prefix ≢ []
        → Chosen p prefix t.files t.files []
        → Replaced iequals h t t s s2
        → Selects (ok ((404, bytes "Invalid prefix provided"), s2, []))

  Chosen-Selects :
      (t : Torrent) (gs : List File) (cs : List HandleCall)
      → find_torrent iequals h s.torrents ≡ some t
      → t.has_metadata ≡ true
      → prefix ≢ []
      → Chosen p prefix t.files gs cs
      → Selects (
          ok (
            if not (is_empty cs) then (200, message) else (404, bytes "Invalid prefix provided"),
            with_torrent iequals h (record t { files = gs }) s,
            cs,
          ))
  Chosen-Selects t gs [] found meta ne chosen =
      let same = Chosen-unchanged p prefix chosen in
      unmatched t _ found meta ne (subst (λ l. Chosen p prefix t.files l []) same chosen) (
        subst
          (λ l.
            Replaced iequals h t (record t { files = l }) s
              (with_torrent iequals h (record t { files = gs }) s))
          same (with_torrent-Replaced iequals h t (record t { files = gs }) s found refl))
  Chosen-Selects t gs (c ∷ cs) found meta ne chosen =
      selected t gs _ (c ∷ cs) found meta chosen (inr (λ e. absurd (cc)))
        (with_torrent-Replaced iequals h t _ s found refl)

  -- The files are those of the torrent.
  known_files :
      (t : Torrent)
      → find_torrent iequals h s.torrents ≡ some t
      → t.has_metadata ≡ true
      → (handle_of : Torrent → Handle)
      → Selects (set_priority iequals handle_of p h prefix message s)
  unfolding set_priority set_prefixed set_whole must_find_torrent
  known_files t found meta handle_of = elim (Bool-cases (is_empty prefix)) [
    | inl e ↦
        let nil = is_empty-nil prefix e in
        subst Selects (sym (rw (e, found, set_whole_known (handle_of t) p t meta) refl)) (
          selected t (with_priority p t.files) _ (priority_calls p t.files) found meta
            (subst (λ k. Chosen p k t.files (with_priority p t.files) (priority_calls p t.files))
              (sym nil) (whole-Chosen p t.files))
            (inl nil) (with_torrent-Replaced iequals h t _ s found refl))
    | inr e ↦
        let (gs, cs, ran, chosen) = set_selected-Chosen (handle_of t) p prefix t.files in
        subst Selects (sym (rw (e, found, get_files_known t meta, ran) refl))
          (Chosen-Selects t gs cs found meta (λ nil. absurd (let k = rw nil at e in cc)) chosen)
  ]

  -- Setting a priority for a prefix sets it on exactly the files whose path begins with the prefix, once
  -- and in order, on all of them for an empty prefix, and leaves the other files and the other torrents;
  -- 404 and no change where a prefix is given that no file has, and errors for an unknown torrent and one
  -- without metadata.
  pub set_priority-Selects :
      (handle_of : Torrent → Handle) → Selects (set_priority iequals handle_of p h prefix message s)
  unfolding set_priority set_prefixed set_whole must_find_torrent
  set_priority-Selects handle_of = elim (Option-cases (find_torrent iequals h s.torrents)) [
    | inl gone ↦ elim (Bool-cases (is_empty prefix)) [
      | inl e ↦ subst Selects (sym (rw (e, gone) refl)) (unknown_torrent gone)
      | inr e ↦ subst Selects (sym (rw (e, gone) refl)) (unknown_torrent gone)
    ]
    | inr (t, found) ↦ elim (Bool-cases t.has_metadata) [
      | inl meta ↦ known_files t found meta handle_of
      | inr unknown ↦ elim (Bool-cases (is_empty prefix)) [
        | inl e ↦
            subst Selects (sym (rw (e, found, set_whole_unknown (handle_of t) p t unknown) refl))
              (without_metadata t found unknown)
        | inr e ↦
            subst Selects (sym (rw (e, found, get_files_unknown t unknown) refl))
              (without_metadata t found unknown)
      ]
    ]
  ]
