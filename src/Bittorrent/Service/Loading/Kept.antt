-- ===== src/Bittorrent/Service/Loading/Kept.antt =====
-- What is left of the files that are loaded: each has its torrent, or is removed.
use torrest_cpp.Prelude.{
  ◌≡◌, refl, ◌⊎◌, inl, inr, Bool, true, none, some, List, [], ◌∷◌, ◌++◌, map, Bytes,
}
use torrest_cpp.Prelude.{Result, ok}
use torrest_cpp.Bittorrent.Handle.{HandleCall}
use torrest_cpp.Bittorrent.Service.{
  Service, Parsed, ServiceCall, Addition, remove_file, has_torrent,
}
use torrest_cpp.Bittorrent.Service.MagnetFile.{Magnet, decode_magnet}
use torrest_cpp.Bittorrent.Service.Loading.{
  Sources, Loaded, is_bittorrent, attempt, load_all, caught_resume, caught_torrent, caught_magnet,
}
use torrest_cpp.Bittorrent.Service.Loading.Additions.{
  Calls, Calls-left, Calls-right, Grows, Grows-refl, Grows-trans, Ends, there, twice, failed,
}

module _ (iequals : Bytes → Bytes → Bool) where
  -- The torrent of the file is there, or the file is removed.
  abbrev pub Settled : Result Bytes Parsed → Bytes → Service → List ServiceCall → Type 0
  Settled source f s ds =
      ((q : Parsed) × (source ≡ ok q) × (has_torrent iequals q.info_hash s ≡ true))
      ⊎ Calls (remove_file f) ds

  -- A claim about a file that later loads keep.
  pub record IsStable (P : Bytes → Service → List ServiceCall → Type 0) : Type 1 where
    pub grow :
        (f : Bytes) (s s2 : Service) (ds : List ServiceCall)
        → Grows iequals s s2
        → P f s ds
        → P f s2 ds
    pub left : (f : Bytes) (s : Service) (ds es : List ServiceCall) → P f s ds → P f s (ds ++ es)
    pub right : (f : Bytes) (s : Service) (ds es : List ServiceCall) → P f s es → P f s (ds ++ es)

  -- Of every file.
  abbrev pub Every :
      (Bytes → Service → List ServiceCall → Type 0)
      → List Bytes
      → Service
      → List ServiceCall
      → Type 0
  Every P [] s ds = Unit
  Every P (f ∷ fs) s ds = P f s ds × Every P fs s ds

  -- What a load comes to.
  abbrev pub Loads : (Service → List ServiceCall → Type 0) → Service → Loaded → Type 0
  Loads Q s r =
      (s2 : Service) × (cs : List HandleCall) × (ds : List ServiceCall) × (r ≡ ok (s2, cs, ds))
      × Grows iequals s s2
      × Q s2 ds

  module _ (P : Bytes → Service → List ServiceCall → Type 0) (stable : IsStable P) where
    pub Every-grow :
        (fs : List Bytes) (s s2 : Service) (ds : List ServiceCall)
        → Grows iequals s s2
        → Every P fs s ds
        → Every P fs s2 ds
    Every-grow [] s s2 ds g all = tt
    Every-grow (f ∷ fs) s s2 ds g all =
        (stable.grow f s s2 ds g all.0, Every-grow fs s s2 ds g all.1)

    pub Every-left :
        (fs : List Bytes) (s : Service) (ds es : List ServiceCall)
        → Every P fs s ds
        → Every P fs s (ds ++ es)
    Every-left [] s ds es all = tt
    Every-left (f ∷ fs) s ds es all = (stable.left f s ds es all.0, Every-left fs s ds es all.1)

    pub Every-right :
        (fs : List Bytes) (s : Service) (ds es : List ServiceCall)
        → Every P fs s es
        → Every P fs s (ds ++ es)
    Every-right [] s ds es all = tt
    Every-right (f ∷ fs) s ds es all = (stable.right f s ds es all.0, Every-right fs s ds es all.1)

    pub load_all-Loads :
        (one : Bytes → Service → Loaded)
        → ((f : Bytes) (s : Service) → Loads (P f) s (one f s))
        → (fs : List Bytes) (s : Service) → Loads (Every P fs) s (load_all one fs s)
    unfolding load_all
    load_all-Loads one each [] s = (s, [], [], refl, Grows-refl iequals s, tt)
    load_all-Loads one each (f ∷ fs) s =
        let (s2, cs, ds, ran, g, p) = each f s in
        let (s3, cs2, ds2, rest, g2, all) = load_all-Loads one each fs s2 in
        (
          s3,
          cs ++ cs2,
          ds ++ ds2,
          rw (ran, rest) refl,
          Grows-trans iequals s s2 s3 g g2,
          (stable.left f s3 ds ds2 (stable.grow f s2 s3 ds g2 p), Every-right fs s3 ds ds2 all),
        )

  Settled-grow :
      (source : Result Bytes Parsed) (f : Bytes) (s s2 : Service) (ds : List ServiceCall)
      → Grows iequals s s2
      → Settled source f s ds
      → Settled source f s2 ds
  Settled-grow source f s s2 ds g (inl (q, read, has)) = inl (q, read, g.keeps q.info_hash has)
  Settled-grow source f s s2 ds g (inr gone) = inr gone

  Settled-left :
      (source : Result Bytes Parsed) (f : Bytes) (s : Service) (ds es : List ServiceCall)
      → Settled source f s ds
      → Settled source f s (ds ++ es)
  Settled-left source f s ds es (inl present) = inl present
  Settled-left source f s ds es (inr gone) = inr (Calls-left (remove_file f) ds es gone)

  Settled-right :
      (source : Result Bytes Parsed) (f : Bytes) (s : Service) (ds es : List ServiceCall)
      → Settled source f s es
      → Settled source f s (ds ++ es)
  Settled-right source f s ds es (inl present) = inl present
  Settled-right source f s ds es (inr gone) = inr (Calls-right (remove_file f) ds es gone)

  pub Settled-IsStable :
      (source : Bytes → Result Bytes Parsed) → IsStable (λ f s ds. Settled (source f) f s ds)
  Settled-IsStable source = record {
    grow = λ f. Settled-grow (source f) f;
    left = λ f. Settled-left (source f) f;
    right = λ f. Settled-right (source f) f;
  }

  -- A magnet file: the same of the link that is read from it, if one is.
  abbrev pub MagnetSettled : Sources → Bytes → Service → List ServiceCall → Type 0
  MagnetSettled src f s ds =
      (decode_magnet (src.contents f) ≡ none)
      ⊎ ((m : Magnet) × (decode_magnet (src.contents f) ≡ some m)
          × Settled (src.magnet_uri m.magnet) f s ds)

  MagnetSettled-map :
      (src : Sources) (f : Bytes) (s s2 : Service) (ds es : List ServiceCall)
      → ((source : Result Bytes Parsed) → Settled source f s ds → Settled source f s2 es)
      → MagnetSettled src f s ds
      → MagnetSettled src f s2 es
  MagnetSettled-map src f s s2 ds es map (inl unread) = inl unread
  MagnetSettled-map src f s s2 ds es map (inr (m, read, settled)) = inr (m, read, map _ settled)

  pub MagnetSettled-IsStable : (src : Sources) → IsStable (MagnetSettled src)
  MagnetSettled-IsStable src = record {
    grow = λ f s s2 ds g.
        MagnetSettled-map src f s s2 ds ds (λ source. Settled-grow source f s s2 ds g);
    left = λ f s ds es.
        MagnetSettled-map src f s s ds (ds ++ es) (λ source. Settled-left source f s ds es);
    right = λ f s ds es.
        MagnetSettled-map src f s s es (ds ++ es) (λ source. Settled-right source f s ds es);
  }

  pub attempt_resume :
      (source : Result Bytes Parsed) (f : Bytes) (s : Service) (a : Addition)
      → Ends iequals source s a
      → Loads (Settled source f) s (attempt (caught_resume f) s a)
  unfolding attempt caught_resume is_bittorrent
  attempt_resume source f s _ (there q s2 h cs ds read g has) =
      (s2, cs, ds, refl, g, inl (q, read, has))
  attempt_resume source f s _ (twice q read has) =
      (s, [], remove_file f ∷ [], refl, Grows-refl iequals s, inl (q, read, has))
  attempt_resume source f s _ (failed message) =
      (s, [], remove_file f ∷ [], refl, Grows-refl iequals s, inr (inl refl))

  pub attempt_torrent :
      (source : Result Bytes Parsed) (f : Bytes) (s : Service) (a : Addition)
      → Ends iequals source s a
      → Loads (Settled source f) s (attempt (caught_torrent f) s a)
  unfolding attempt caught_torrent
  attempt_torrent source f s _ (there q s2 h cs ds read g has) =
      (s2, cs, ds, refl, g, inl (q, read, has))
  attempt_torrent source f s _ (twice q read has) =
      (s, [], [], refl, Grows-refl iequals s, inl (q, read, has))
  attempt_torrent source f s _ (failed message) =
      (s, [], remove_file f ∷ [], refl, Grows-refl iequals s, inr (inl refl))

  pub attempt_magnet :
      (join : Bytes → Bytes → Bytes) (source : Result Bytes Parsed) (f : Bytes) (s : Service)
      (a : Addition)
      → Ends iequals source s a
      → Loads (Settled source f) s (attempt (caught_magnet join s f) s a)
  unfolding attempt caught_magnet is_bittorrent
  attempt_magnet join source f s _ (there q s2 h cs ds read g has) =
      (s2, cs, ds, refl, g, inl (q, read, has))
  attempt_magnet join source f s _ (twice q read has) =
      (s, [], _, refl, Grows-refl iequals s, inl (q, read, has))
  attempt_magnet join source f s _ (failed message) =
      (s, [], remove_file f ∷ [], refl, Grows-refl iequals s, inr (inl refl))
