-- ===== src/Bittorrent/Service/Store.antt =====
-- A torrent of the service that an operation has changed: the pointers to it are shared, so the service
-- holds it as it is then. A file of a torrent alike.
use torrest_cpp.Prelude.{
  ◌≡◌, refl, sym, ap, ◌∙◌, inl, inr, Bool, true, false, some, List, [], ◌∷◌, if◌then◌else◌,
  Bool-cases, Bytes,
}
use torrest_cpp.Bittorrent.Torrent.{Torrent}
use torrest_cpp.Bittorrent.Service.{Service, find_torrent}

module _ (iequals : Bytes → Bytes → Bool) where
  unfoldable pub replace : Bytes → Torrent → List Torrent → List Torrent
  replace h u [] = []
  replace h u (t ∷ ts) =
      let rest = replace h u ts in if iequals t.info_hash h then u ∷ ts else t ∷ rest

  unfoldable pub with_torrent : Bytes → Torrent → Service → Service
  unfolding replace
  with_torrent h u s = record s { torrents = replace h u s.torrents }

  -- The torrent is found changed, and the others are found as before.
  pub record Replaced (h : Bytes) (t u : Torrent) (s s2 : Service) : Type 0 where
    pub here : find_torrent iequals h s2.torrents ≡ some u
    pub others :
        (g : Bytes)
        → iequals t.info_hash g ≡ false
        → find_torrent iequals g s2.torrents ≡ find_torrent iequals g s.torrents

  find_torrent-head :
      (h : Bytes) (t x : Torrent) (ts : List Torrent)
      → iequals x.info_hash h ≡ true
      → find_torrent iequals h (x ∷ ts) ≡ some t
      → x ≡ t
  unfolding find_torrent
  find_torrent-head h t x ts e found = let k = rw e at found in cc

  find_torrent-replace :
      (h : Bytes) (t u : Torrent) (ts : List Torrent)
      → find_torrent iequals h ts ≡ some t
      → u.info_hash ≡ t.info_hash
      → find_torrent iequals h (replace h u ts) ≡ some u
  unfolding find_torrent replace
  find_torrent-replace h t u [] found same = absurd (cc)
  find_torrent-replace h t u (x ∷ ts) found same = elim (Bool-cases (iequals x.info_hash h)) [
    | inl e ↦
        let first = find_torrent-head h t x ts e found in
        let hash : u.info_hash ≡ x.info_hash = same ∙ sym (ap (λ k. k.info_hash) first) in
        rw (e, find_torrent, hash, e) refl
    | inr e ↦ rw (e, find_torrent, e) (find_torrent-replace h t u ts (rw e at found) same)
  ]

  find_torrent-replace_other :
      (h g : Bytes) (t u : Torrent) (ts : List Torrent)
      → find_torrent iequals h ts ≡ some t
      → u.info_hash ≡ t.info_hash
      → iequals t.info_hash g ≡ false
      → find_torrent iequals g (replace h u ts) ≡ find_torrent iequals g ts
  unfolding find_torrent replace
  find_torrent-replace_other h g t u [] found same other = refl
  find_torrent-replace_other h g t u (x ∷ ts) found same other =
      elim (Bool-cases (iequals x.info_hash h)) [
        | inl e ↦
            let first = find_torrent-head h t x ts e found in
            let hash : u.info_hash ≡ t.info_hash = same in
            let gone : iequals x.info_hash g ≡ false = rw first other in
            rw (e, find_torrent, hash, other, gone) refl
        | inr e ↦ elim (Bool-cases (iequals x.info_hash g)) [
          | inl c ↦ rw (e, find_torrent, c) refl
          | inr c ↦
              rw (e, find_torrent, c)
                (find_torrent-replace_other h g t u ts (rw e at found) same other)
        ]
      ]

  pub with_torrent-Replaced :
      (h : Bytes) (t u : Torrent) (s : Service)
      → find_torrent iequals h s.torrents ≡ some t
      → u.info_hash ≡ t.info_hash
      → Replaced h t u s (with_torrent h u s)
  unfolding with_torrent
  with_torrent-Replaced h t u s found same = record {
    here = find_torrent-replace h t u s.torrents found same;
    others = λ g other. find_torrent-replace_other h g t u s.torrents found same other;
  }
