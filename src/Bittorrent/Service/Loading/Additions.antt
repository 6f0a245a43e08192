-- ===== src/Bittorrent/Service/Loading/Additions.antt =====
-- How the additions that load a file end, and what they keep of the service.
use torrest_cpp.Prelude.{
  ◌≡◌, refl, sym, subst, ◌⊎◌, inl, inr, Bool, true, false, List, [], ◌∷◌, ◌++◌, Bytes,
}
use torrest_cpp.Prelude.{Result, ok, err, ◌>>=◌, Result-cases}
use torrest_cpp.Bittorrent.Handle.{HandleCall}
use torrest_cpp.Bittorrent.Exceptions.{Exception, duplicate_torrent, load_torrent}
use torrest_cpp.Bittorrent.Torrent.{Torrent}
use torrest_cpp.Bittorrent.Service.{
  Service, Params, Added, Parsed, ServiceCall, Addition, has_torrent, add_magnet, add_torrent_file,
  add_torrent_with_resume_data,
}
use torrest_cpp.Bittorrent.Service.Adding.{Adds-has_torrent}
use torrest_cpp.Bittorrent.Service.Distinct.{Adds-Unique}
use torrest_cpp.Bittorrent.Service.Lookup.{
  IsEquivalence, Unique, find_torrent-append, has_torrent-find,
}
use torrest_cpp.Bittorrent.Service.Registry.{
  Adds, added, duplicate, refused, add_torrent_with_params-Adds,
}
use torrest_cpp.Bittorrent.Service.MagnetFile.{Magnet}

-- Among the calls.
abbrev pub Calls : ServiceCall → List ServiceCall → Type 0
Calls c [] = ⊥
Calls c (d ∷ ds) = (d ≡ c) ⊎ Calls c ds

pub Calls-left : (c : ServiceCall) (ds es : List ServiceCall) → Calls c ds → Calls c (ds ++ es)
Calls-left c [] es i = elim i [ ]
Calls-left c (d ∷ ds) es (inl e) = inl e
Calls-left c (d ∷ ds) es (inr i) = inr (Calls-left c ds es i)

pub Calls-right : (c : ServiceCall) (ds es : List ServiceCall) → Calls c es → Calls c (ds ++ es)
Calls-right c [] es i = i
Calls-right c (d ∷ ds) es i = inr (Calls-right c ds es i)

module _ (iequals : Bytes → Bytes → Bool) where
  -- No torrent is lost, and none comes twice.
  pub record Grows (s s2 : Service) : Type 0 where
    pub keeps : (h : Bytes) → has_torrent iequals h s ≡ true → has_torrent iequals h s2 ≡ true
    pub unique : Unique iequals s.torrents → Unique iequals s2.torrents

  pub Grows-refl : (s : Service) → Grows s s
  Grows-refl s = record { keeps = λ h has. has; unique = λ u. u }

  pub Grows-trans : (a b c : Service) → Grows a b → Grows b c → Grows a c
  Grows-trans a b c x y = record {
    keeps = λ h has. y.keeps h (x.keeps h has);
    unique = λ u. y.unique (x.unique u);
  }

  has_torrent-append :
      (s : Service) (t : Torrent) (h : Bytes)
      → has_torrent iequals h s ≡ true
      → has_torrent iequals h (record s { torrents = s.torrents ++ t ∷ [] }) ≡ true
  unfolding has_torrent
  has_torrent-append s t h has = elim (has_torrent-find iequals h s) [
    | inr (lacks, _) ↦ absurd (cc)
    | inl (_, x, found) ↦ rw (find_torrent-append iequals h s.torrents t, found) refl
  ]

  -- How an addition from what libtorrent read ends.
  pub data Ends (source : Result Bytes Parsed) (s : Service) : Addition → Type 0 where
    there :
        (q : Parsed) (s2 : Service) (h : Bytes) (cs : List HandleCall) (ds : List ServiceCall)
        → source ≡ ok q
        → Grows s s2
        → has_torrent iequals q.info_hash s2 ≡ true
        → Ends source s (ok (s2, h, cs, ds))
    twice :
        (q : Parsed)
        → source ≡ ok q
        → has_torrent iequals q.info_hash s ≡ true
        → Ends source s (err (duplicate_torrent q.info_hash))
    failed : (message : Bytes) → Ends source s (err (load_torrent message))

  module _ (e : IsEquivalence iequals) (session : Params → Result Bytes Added) where
    pub Adds-Ends :
        (source : Result Bytes Parsed) (q : Parsed) (answer : Result Bytes Added) (s : Service)
        (r : Result Exception (Service × List HandleCall)) (ds : List ServiceCall)
        → source ≡ ok q
        → Adds iequals q.info_hash answer s r
        → Ends source s (r >>= λ x. ok (x.0, q.info_hash, x.1, ds))
    Adds-Ends source q answer s _ ds read (added a t cs lacks is hash live meta) =
        let adds = added a t cs lacks is hash live meta in
        there q _ q.info_hash cs ds read
          (record {
            keeps = has_torrent-append s t;
            unique = Adds-Unique iequals e q.info_hash answer s adds refl;
          })
          (Adds-has_torrent iequals e q.info_hash answer s adds refl)
    Adds-Ends source q answer s _ ds read (duplicate has) = twice q read has
    Adds-Ends source q answer s _ ds read (refused message lacks is) = failed message

    pub add_torrent_with_resume_data-Ends :
        (join : Bytes → Bytes → Bytes) (read : Bytes → Result Bytes Parsed) (f : Bytes)
        (s : Service)
        → Ends (read f) s (add_torrent_with_resume_data iequals join session read f s)
    unfolding add_torrent_with_resume_data
    add_torrent_with_resume_data-Ends join read f s = elim (Result-cases (read f)) [
      | inr (message, is) ↦ subst (Ends (read f) s) (sym (rw is refl)) (failed message)
      | inl (q, is) ↦ subst (Ends (read f) s) (sym (rw is refl)) (
          Adds-Ends (read f) q _ s _ [] is
            (add_torrent_with_params-Adds iequals session q.params q.info_hash true true s))
    ]

    pub add_torrent_file-Ends :
        (join : Bytes → Bytes → Bytes) (read : Bytes → Result Bytes Parsed)
        (equivalent : Bytes → Bytes → Bool) (f : Bytes) (s : Service)
        → Ends (read f) s (add_torrent_file iequals join session read equivalent f false false s)
    unfolding add_torrent_file
    add_torrent_file-Ends join read equivalent f s = elim (Result-cases (read f)) [
      | inr (message, is) ↦ subst (Ends (read f) s) (sym (rw is refl)) (failed message)
      | inl (q, is) ↦ subst (Ends (read f) s) (sym (rw is refl)) (
          Adds-Ends (read f) q _ s _ [] is
            (add_torrent_with_params-Adds iequals session q.params q.info_hash false false s))
    ]

    pub add_magnet-Ends :
        (join : Bytes → Bytes → Bytes) (parse : Bytes → Result Bytes Parsed) (m : Magnet)
        (s : Service)
        → Ends
            (parse m.magnet)
            s
            (add_magnet iequals join session parse m.magnet m.download false s)
    unfolding add_magnet
    add_magnet-Ends join parse m s = elim (Result-cases (parse m.magnet)) [
      | inr (message, is) ↦ subst (Ends (parse m.magnet) s) (sym (rw is refl)) (failed message)
      | inl (q, is) ↦ subst (Ends (parse m.magnet) s) (sym (rw is refl)) (
          Adds-Ends (parse m.magnet) q _ s _ [] is
            (add_torrent_with_params-Adds iequals session q.params q.info_hash false m.download s))
    ]
