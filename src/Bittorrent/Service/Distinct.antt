-- ===== src/Bittorrent/Service/Distinct.antt =====
-- Additions and removals keep the info hashes apart.
use torrest_cpp.Prelude.{◌≡◌, sym, ap, subst, ◌∙◌, inl, inr, Bool, List, Bytes}
use torrest_cpp.Prelude.{Result, ok}
use torrest_cpp.Bittorrent.Handle.{HandleCall}
use torrest_cpp.Bittorrent.Exceptions.{Exception}
use torrest_cpp.Bittorrent.Torrent.{Torrent}
use torrest_cpp.Bittorrent.Service.{Service, Added, ServiceCall, remove_torrent}
use torrest_cpp.Bittorrent.Service.Lookup.{
  IsEquivalence, Unique, erase-Unique, append-Unique, has_torrent-find,
}
use torrest_cpp.Bittorrent.Service.Registry.{
  Adds, added, duplicate, refused, remove_torrent-eq-ok, remove_torrent-eq-err, service_of,
  service_left,
}

module _ (iequals : Bytes → Bytes → Bool) (e : IsEquivalence iequals) where
  pub Adds-Unique :
      (h : Bytes) (answer : Result Bytes Added) (s : Service)
      {r : Result Exception (Service × List HandleCall)} {s2 : Service} {cs : List HandleCall}
      → Adds iequals h answer s r
      → r ≡ ok (s2, cs)
      → Unique iequals s.torrents
      → Unique iequals s2.torrents
  Adds-Unique h answer s (added a t cs lacks _ hash _ _) eq u =
      subst (λ x. Unique iequals x.torrents) (ap (service_of s) eq)
        (append-Unique iequals e s.torrents t
          (elim (has_torrent-find iequals h s) [
            | inl (has, _, _) ↦ absurd (cc)
            | inr (_, missing) ↦ rw hash missing
          ])
          u)
  Adds-Unique h answer s (duplicate has) eq u = absurd (cc)
  Adds-Unique h answer s (refused message _ _) eq u = absurd (cc)

  pub remove_torrent-Unique :
      (join : Bytes → Bytes → Bytes) (h : Bytes) (remove_files : Bool) (s : Service) {s2 : Service}
      {t : Torrent} {cs : List ServiceCall}
      → remove_torrent iequals join h remove_files s ≡ ok (s2, t, cs)
      → Unique iequals s.torrents
      → Unique iequals s2.torrents
  remove_torrent-Unique join h remove_files s {s2} {t} {cs} eq u =
      elim (has_torrent-find iequals h s) [
        | inl (has, x, found) ↦
            let same = sym (remove_torrent-eq-ok iequals join h remove_files s x found) ∙ eq in
            subst (λ y. Unique iequals y.torrents) (ap (service_left s) same)
              (erase-Unique iequals h s.torrents u)
        | inr (lacks, missing) ↦
            absurd (let bad = remove_torrent-eq-err iequals join h remove_files s missing in cc)
      ]
