-- ===== src/Bittorrent/Service/Loading/Directory.antt =====
-- A whole directory of files to load, and the parts in the other one.
use torrest_cpp.Prelude.{
  ◌≡◌, refl, sym, ap, ◌∙◌, ◌↔◌, inl, inr, Bool, true, List, [], ◌++◌, append_assoc, Option-cases,
  Bytes, bytes,
}
use torrest_cpp.Prelude.{Result, ok}
use torrest_cpp.Bittorrent.Handle.{HandleCall}
use torrest_cpp.Bittorrent.Service.{Service, Params, Added, ServiceCall, has_torrent}
use torrest_cpp.Bittorrent.Service.Lookup.{IsEquivalence, Unique}
use torrest_cpp.Bittorrent.Service.MagnetFile.{decode_magnet}
use torrest_cpp.Bittorrent.Service.Loading.{
  Entry, Sources, with_extension, load_resume_file, load_torrent_file, load_magnet_file, load_all,
  stale_parts, load_torrent_files,
}
use torrest_cpp.Bittorrent.Service.Loading.Additions.{
  Calls, Grows-refl, Grows-trans, add_torrent_with_resume_data-Ends, add_torrent_file-Ends,
  add_magnet-Ends,
}
use torrest_cpp.Bittorrent.Service.Loading.Files.{
  FilesOf, with_extension-FilesOf, IsStale, stale_parts_iff,
}
use torrest_cpp.Bittorrent.Service.Loading.Kept.{
  Settled, MagnetSettled, Every, Loads, Every-grow, Every-left, Every-right, load_all-Loads,
  Settled-IsStable, MagnetSettled-IsStable, attempt_resume, attempt_torrent, attempt_magnet,
}

module _ (iequals : Bytes → Bytes → Bool) (join : Bytes → Bytes → Bytes)
    (session : Params → Result Bytes Added) (src : Sources) where
  -- One file after the other, first those of resume data, then the torrent and the magnet files.
  abbrev pub LoadsInTurn :
      List Bytes → List Bytes → List Bytes → Service → Service → List ServiceCall → Type 0
  LoadsInTurn resumes opens links s s4 ds =
      (s2 : Service) × (s3 : Service) × (cs1 : List HandleCall) × (cs2 : List HandleCall)
      × (cs3 : List HandleCall) × (ds1 : List ServiceCall) × (ds2 : List ServiceCall) × (ds3 : List
          ServiceCall)
      × (load_all (load_resume_file iequals join session src) resumes s ≡ ok (s2, cs1, ds1))
      × (load_all (load_torrent_file iequals join session src) opens s2 ≡ ok (s3, cs2, ds2))
      × (load_all (load_magnet_file iequals join session src) links s3 ≡ ok (s4, cs3, ds3))
      × (ds ≡ ds1 ++ (ds2 ++ ds3))

  -- What is so once the directories are loaded.
  pub record IsLoaded (torrents downloads : List Entry) (s s2 : Service) (ds : List ServiceCall)
      : Type 0 where
    pub keeps : (h : Bytes) → has_torrent iequals h s ≡ true → has_torrent iequals h s2 ≡ true
    pub unique : Unique iequals s.torrents → Unique iequals s2.torrents
    -- The files that are loaded, and the removals of the loads and of the cleanup.
    pub resume_files : List Bytes
    pub torrent_files : List Bytes
    pub magnet_files : List Bytes
    pub kept : List ServiceCall
    pub stale : List ServiceCall
    pub files :
        FilesOf (bytes ".fastresume") torrents resume_files
        × FilesOf (bytes ".torrent") torrents torrent_files
        × FilesOf (bytes ".magnet") torrents magnet_files
    pub removals : ds ≡ kept ++ stale
    pub loads : LoadsInTurn resume_files torrent_files magnet_files s s2 kept
    pub resumed : Every iequals (λ f. Settled iequals (src.resume_data f) f) resume_files s2 ds
    pub opened : Every iequals (λ f. Settled iequals (src.torrent_info f) f) torrent_files s2 ds
    pub linked : Every iequals (MagnetSettled iequals src) magnet_files s2 ds
    pub cleaned : (c : ServiceCall) → Calls c stale ↔ IsStale iequals s2 c downloads

  module _ (e : IsEquivalence iequals) where
    resume-Loads :
        (f : Bytes) (s : Service)
        → Loads iequals
            (Settled iequals (src.resume_data f) f)
            s
            (load_resume_file iequals join session src f s)
    unfolding load_resume_file
    resume-Loads f s =
        attempt_resume iequals (src.resume_data f) f s _
          (add_torrent_with_resume_data-Ends iequals e session join src.resume_data f s)

    torrent-Loads :
        (f : Bytes) (s : Service)
        → Loads iequals
            (Settled iequals (src.torrent_info f) f)
            s
            (load_torrent_file iequals join session src f s)
    unfolding load_torrent_file
    torrent-Loads f s =
        attempt_torrent iequals (src.torrent_info f) f s _
          (add_torrent_file-Ends iequals e session join src.torrent_info src.equivalent f s)

    magnet-Loads :
        (f : Bytes) (s : Service)
        → Loads iequals
            (MagnetSettled iequals src f)
            s
            (load_magnet_file iequals join session src f s)
    unfolding load_magnet_file
    magnet-Loads f s = elim (Option-cases (decode_magnet (src.contents f))) [
      | inl unread ↦
          (s, [], [], rw (unread, load_magnet_file) refl, Grows-refl iequals s, inl unread)
      | inr (m, read) ↦
          let (s2, cs, ds, ran, g, settled) =
            attempt_magnet iequals join (src.magnet_uri m.magnet) f s _
              (add_magnet-Ends iequals e session join src.magnet_uri m s) in
          (s2, cs, ds, rw (read, load_magnet_file) ran, g, inr (m, read, settled))
    ]

    pub load_torrent_files-IsLoaded :
        (torrents downloads : List Entry) (s : Service)
        → (s2 : Service) × (cs : List HandleCall) × (ds : List ServiceCall) × (load_torrent_files
              iequals join session src torrents downloads s
            ≡ ok (s2, cs, ds))
          × IsLoaded torrents downloads s s2 ds
    unfolding load_torrent_files
    load_torrent_files-IsLoaded torrents downloads s =
        let resumes = with_extension (bytes ".fastresume") torrents in
        let opens = with_extension (bytes ".torrent") torrents in
        let links = with_extension (bytes ".magnet") torrents in
        let stable1 = Settled-IsStable iequals src.resume_data in
        let stable2 = Settled-IsStable iequals src.torrent_info in
        let stable3 = MagnetSettled-IsStable iequals src in
        let (s1, cs1, ds1, ran1, g1, all1) =
          load_all-Loads iequals _ stable1 (load_resume_file iequals join session src) resume-Loads
            resumes s in
        let (s2, cs2, ds2, ran2, g2, all2) =
          load_all-Loads iequals _ stable2 (load_torrent_file iequals join session src)
            torrent-Loads opens s1 in
        let (s3, cs3, ds3, ran3, g3, all3) =
          load_all-Loads iequals _ stable3 (load_magnet_file iequals join session src) magnet-Loads
            links s2 in
        let stale = stale_parts iequals s3 downloads in
        let g23 = Grows-trans iequals s1 s2 s3 g2 g3 in
        let grown = Grows-trans iequals s s1 s3 g1 g23 in
        (
          s3,
          cs1 ++ (cs2 ++ cs3),
          ds1 ++ (ds2 ++ (ds3 ++ stale)),
          rw (ran1, ran2, ran3) refl,
          record {
            keeps = grown.keeps;
            resume_files = resumes;
            torrent_files = opens;
            magnet_files = links;
            kept = ds1 ++ (ds2 ++ ds3);
            stale = stale;
            files = (
              with_extension-FilesOf (bytes ".fastresume") torrents,
              with_extension-FilesOf (bytes ".torrent") torrents,
              with_extension-FilesOf (bytes ".magnet") torrents,
            );
            loads = (s1, s2, cs1, cs2, cs3, ds1, ds2, ds3, ran1, ran2, ran3, refl);
            unique = grown.unique;
            resumed =
                Every-left iequals _ stable1 resumes s3 ds1 _
                  (Every-grow iequals _ stable1 resumes s1 s3 ds1 g23 all1);
            opened = Every-right iequals _ stable2 opens s3 ds1 _ (
                Every-left iequals _ stable2 opens s3 ds2 _
                  (Every-grow iequals _ stable2 opens s2 s3 ds2 g3 all2));
            linked = Every-right iequals _ stable3 links s3 ds1 _ (
                Every-right iequals _ stable3 links s3 ds2 _
                  (Every-left iequals _ stable3 links s3 ds3 stale all3));
            removals = sym (
                append_assoc ds1 (ds2 ++ ds3) stale
                ∙ ap (λ r. ds1 ++ r) (append_assoc ds2 ds3 stale));
            cleaned = λ c. stale_parts_iff iequals s3 c downloads;
          },
        )
