-- ===== src/Bittorrent/Service/Registry.antt =====
-- The torrents of the service: added under one info hash at most, removed by theirs.
use torrest_cpp.Prelude.{
  suc, ◌≡◌, refl, sym, ap, subst, ◌∙◌, inl, inr, Bool, true, false, none, some, List, [], ◌∷◌, ◌++◌,
  Bool-cases, Option-cases, length, Bytes,
}
use torrest_cpp.Prelude.{Result, ok, err, Result-cases}
use torrest_cpp.Bittorrent.Handle.{HandleCall}
use torrest_cpp.Bittorrent.Exceptions.{
  Exception, invalid_info_hash, duplicate_torrent, load_torrent,
}
use torrest_cpp.Bittorrent.Torrent.{Torrent, make_torrent}
use torrest_cpp.Bittorrent.Torrent.Files.{handle_metadata_received_lem}
use torrest_cpp.Bittorrent.Service.{
  Service, Params, Added, ServiceCall, find_torrent, must_find_torrent, has_torrent, erase,
  has_value, set_params, receive, load, add_torrent_with_params, remove_torrent, removal_calls,
}
use torrest_cpp.Bittorrent.Service.Lookup.{
  IsEquivalence, Unique, find_torrent-erase_self, find_torrent-erase, has_torrent-find,
}

-- How an addition may end, by what the session answers.
pub data Adds (iequals : Bytes → Bytes → Bool) (h : Bytes) (answer : Result Bytes Added)
    (s : Service) : Result Exception (Service × List HandleCall) → Type 0 where
  added :
      (a : Added) (t : Torrent) (cs : List HandleCall)
      → has_torrent iequals h s ≡ false
      → answer ≡ ok a
      → t.info_hash ≡ h
      → t.is_closed ≡ false
      → t.has_metadata ≡ has_value a.metadata
      → Adds iequals h answer s (ok (record s { torrents = s.torrents ++ t ∷ [] }, cs))
  duplicate : has_torrent iequals h s ≡ true → Adds iequals h answer s (err (duplicate_torrent h))
  refused :
      (message : Bytes)
      → has_torrent iequals h s ≡ false
      → answer ≡ err message
      → Adds iequals h answer s (err (load_torrent message))

load_lem :
    (h : Bytes) (a : Added)
    → (t : Torrent) × (cs : List HandleCall) × (load h (ok a) ≡ ok (t, cs))
      × (t.info_hash ≡ h)
      × (t.is_closed ≡ false)
      × (t.has_metadata ≡ has_value a.metadata)
unfolding load receive make_torrent
load_lem h a = elim (Option-cases a.metadata) [
  | inl n ↦ (make_torrent a.handle h a.name, [], rw (n, receive) refl, refl, refl, rw n refl)
  | inr (m, y) ↦
      let (fs, cs, e, all) =
        handle_metadata_received_lem a.handle m (make_torrent a.handle h a.name) in
      (
        record (make_torrent a.handle h a.name) { files = fs; has_metadata = true },
        cs,
        rw (y, receive) e,
        refl,
        refl,
        rw y refl,
      )
]

load_refused : (h message : Bytes) → load h (err message) ≡ err (load_torrent message)
unfolding load
load_refused h message = refl

-- A torrent is added at the end, with its metadata if it came with any, unless there is one with its
-- info hash up to case or the session refuses it.
pub add_torrent_with_params-Adds :
    (iequals : Bytes → Bytes → Bool) (session : Params → Result Bytes Added) (p : Params)
    (h : Bytes) (is_resume_data download : Bool) (s : Service)
    → Adds iequals h
        (session (set_params is_resume_data download s p))
        s
        (add_torrent_with_params iequals session p h is_resume_data download s)
unfolding add_torrent_with_params
add_torrent_with_params-Adds iequals session p h r d s =
    let q = set_params r d s p in
    let Ends = Adds iequals h (session q) s in
    elim (Bool-cases (has_torrent iequals h s)) [
      | inl y ↦ subst Ends (sym (rw y refl)) (duplicate y)
      | inr n ↦ elim (Result-cases (session q)) [
        | inl (a, is_ok) ↦
            let (t, cs, e, hash, live, meta) = load_lem h a in
            subst Ends (sym (rw (n, is_ok, e) refl)) (added a t cs n is_ok hash live meta)
        | inr (message, is_err) ↦
            subst Ends (sym (rw (n, is_err, load_refused h message) refl))
              (refused message n is_err)
      ]
    ]

-- How a removal may end.
pub data Removes (iequals : Bytes → Bytes → Bool) (h : Bytes) (s : Service)
    : Result Exception (Service × Torrent × List ServiceCall) → Type 0 where
  removed :
      (s2 : Service) (t : Torrent) (cs : List ServiceCall)
      → find_torrent iequals h s.torrents ≡ some t
      → has_torrent iequals h s2 ≡ false
      → ((g : Bytes)
          → iequals g h ≡ false
          → find_torrent iequals g s2.torrents ≡ find_torrent iequals g s.torrents)
      → suc (length s2.torrents) ≡ length s.torrents
      → Removes iequals h s (ok (s2, record t { is_closed = true }, cs))
  unknown : has_torrent iequals h s ≡ false → Removes iequals h s (err invalid_info_hash)

length-erase :
    (iequals : Bytes → Bytes → Bool) (h : Bytes) (ts : List Torrent) {t : Torrent}
    → find_torrent iequals h ts ≡ some t
    → suc (length (erase iequals h ts)) ≡ length ts
unfolding find_torrent erase
length-erase iequals h [] e = absurd (cc)
length-erase iequals h (x ∷ ts) e = elim (Bool-cases (iequals x.info_hash h)) [
  | inl y ↦ rw y refl
  | inr n ↦ rw n (ap suc (length-erase iequals h ts (sym (rw n refl) ∙ e)))
]

has_torrent-none :
    (iequals : Bytes → Bytes → Bool) (h : Bytes) (s : Service)
    → find_torrent iequals h s.torrents ≡ none
    → has_torrent iequals h s ≡ false
unfolding has_torrent
has_torrent-none iequals h s n = rw n refl

module _ (iequals : Bytes → Bytes → Bool) (join : Bytes → Bytes → Bytes) (h : Bytes)
    (remove_files : Bool) (s : Service) where
  pub remove_torrent-eq-ok :
      (t : Torrent)
      → find_torrent iequals h s.torrents ≡ some t
      → remove_torrent iequals join h remove_files s
        ≡ ok (
          record s { torrents = erase iequals h s.torrents },
          record t { is_closed = true },
          removal_calls join h remove_files t s,
        )
  unfolding remove_torrent must_find_torrent
  remove_torrent-eq-ok t found = rw found refl

  pub remove_torrent-eq-err :
      find_torrent iequals h s.torrents ≡ none
      → remove_torrent iequals join h remove_files s ≡ err invalid_info_hash
  unfolding remove_torrent must_find_torrent
  remove_torrent-eq-err missing = rw missing refl

-- With `boost::iequals` an equivalence and no info hash taken twice, a removal takes away the one
-- torrent of the info hash, which is closed and not found any more, and every other lookup finds what
-- it found before; an unknown info hash is refused.
pub remove_torrent-Removes :
    (iequals : Bytes → Bytes → Bool) (join : Bytes → Bytes → Bytes) (h : Bytes)
    (remove_files : Bool) (s : Service)
    → IsEquivalence iequals
    → Unique iequals s.torrents
    → Removes iequals h s (remove_torrent iequals join h remove_files s)
remove_torrent-Removes iequals join h remove_files s e u =
    let Ends = Removes iequals h s in
    elim (has_torrent-find iequals h s) [
      | inl (has, t, found) ↦
          let rest : Service = record s { torrents = erase iequals h s.torrents } in
          subst Ends (sym (remove_torrent-eq-ok iequals join h remove_files s t found)) (
            removed rest t (removal_calls join h remove_files t s) found
              (has_torrent-none iequals h rest (find_torrent-erase_self iequals e h s.torrents u))
              (λ g n. find_torrent-erase iequals e h g s.torrents n)
              (length-erase iequals h s.torrents found))
      | inr (lacks, missing) ↦
          subst Ends (sym (remove_torrent-eq-err iequals join h remove_files s missing))
            (unknown lacks)
    ]

-- The service behind a success.
abbrev pub service_of : Service → Result Exception (Service × List HandleCall) → Service
service_of d (ok x) = x.0
service_of d (err e) = d

abbrev pub service_left :
    Service → Result Exception (Service × Torrent × List ServiceCall) → Service
service_left d (ok x) = x.0
service_left d (err e) = d
