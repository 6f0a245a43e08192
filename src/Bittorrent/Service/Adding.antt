-- ===== src/Bittorrent/Service/Adding.antt =====
-- A torrent that was added cannot be added again, in whichever way.
use torrest_cpp.Prelude.{◌≡◌, refl, sym, ap, subst, ◌∙◌, inl, inr, Bool, true, false, List, Bytes}
use torrest_cpp.Prelude.{Result, ok, err}
use torrest_cpp.Bittorrent.Handle.{HandleCall}
use torrest_cpp.Bittorrent.Exceptions.{Exception, duplicate_torrent}
use torrest_cpp.Bittorrent.Service.{
  Service, Params, Added, Parsed, has_torrent, add_torrent_with_params, add_magnet,
  add_torrent_data, add_torrent_file, add_torrent_with_resume_data,
}
use torrest_cpp.Bittorrent.Service.Lookup.{
  IsEquivalence, find_torrent-same, find_torrent-append, has_torrent-find,
}
use torrest_cpp.Bittorrent.Service.Registry.{
  Adds, added, duplicate, refused, add_torrent_with_params-Adds, service_of,
}

module _ (iequals : Bytes → Bytes → Bool) (e : IsEquivalence iequals) where
  pub Adds-has_torrent :
      (h : Bytes) (answer : Result Bytes Added) (s : Service)
      {r : Result Exception (Service × List HandleCall)} {s2 : Service} {cs : List HandleCall}
      → Adds iequals h answer s r
      → r ≡ ok (s2, cs)
      → has_torrent iequals h s2 ≡ true
  unfolding has_torrent
  Adds-has_torrent h answer s (added a t cs lacks _ hash _ _) eq =
      subst (λ x. has_torrent iequals h x ≡ true) (ap (service_of s) eq)
        (elim (has_torrent-find iequals h s) [
          | inl (has, _, _) ↦ absurd (cc)
          | inr (_, missing) ↦
              let here : iequals t.info_hash h ≡ true = rw hash (e.same h) in
              rw (find_torrent-append iequals h s.torrents t, missing, here) refl
        ])
  Adds-has_torrent h answer s (duplicate has) eq = absurd (cc)
  Adds-has_torrent h answer s (refused message _ _) eq = absurd (cc)

  has_torrent-same :
      (a b : Bytes) (s : Service)
      → iequals a b ≡ true
      → has_torrent iequals a s ≡ has_torrent iequals b s
  unfolding has_torrent
  has_torrent-same a b s ab = rw (find_torrent-same iequals e a b s.torrents ab) refl

add_torrent_with_params-duplicate :
    (iequals : Bytes → Bytes → Bool) (session : Params → Result Bytes Added) (p : Params)
    (h : Bytes) (is_resume_data download : Bool) (s : Service)
    → has_torrent iequals h s ≡ true
    → add_torrent_with_params iequals session p h is_resume_data download s
      ≡ err (duplicate_torrent h)
unfolding add_torrent_with_params
add_torrent_with_params-duplicate iequals session p h r d s has = rw has refl

-- Once a torrent was added, a magnet link, a torrent's data, a torrent file and resume data with the
-- same info hash up to case are all refused as duplicates, whatever the session would answer, with
-- `boost::iequals` an equivalence.
pub added_again :
    (iequals : Bytes → Bytes → Bool) (join : Bytes → Bytes → Bytes)
    (session : Params → Result Bytes Added) (p : Params) (h : Bytes)
    (is_resume_data download : Bool) (s : Service) {s2 : Service} {cs : List HandleCall}
    (parse : Bytes → Result Bytes Parsed) (equivalent : Bytes → Bytes → Bool) (source : Bytes)
    (q : Parsed) (download_again save : Bool)
    → IsEquivalence iequals
    → add_torrent_with_params iequals session p h is_resume_data download s ≡ ok (s2, cs)
    → parse source ≡ ok q
    → iequals h q.info_hash ≡ true
    → (add_magnet iequals join session parse source download_again save s2
        ≡ err (duplicate_torrent q.info_hash))
      × (add_torrent_data iequals join session parse source download_again s2
          ≡ err (duplicate_torrent q.info_hash))
      × (add_torrent_file iequals join session parse equivalent source download_again save s2
          ≡ err (duplicate_torrent q.info_hash))
      × (add_torrent_with_resume_data iequals join session parse source s2
          ≡ err (duplicate_torrent q.info_hash))
unfolding add_magnet add_torrent_data add_torrent_file add_torrent_with_resume_data
added_again iequals join session p h r d s {s2} {cs} parse equivalent source q d2 save e eq eq_parse
      same =
    let has_h =
      Adds-has_torrent iequals e h _ s (add_torrent_with_params-Adds iequals session p h r d s)
        eq in
    let has = sym (has_torrent-same iequals e h q.info_hash s2 same) ∙ has_h in
    let again = λ (r2 d3 : Bool).
      add_torrent_with_params-duplicate iequals session q.params q.info_hash r2 d3 s2 has in
    (
      rw (eq_parse, again false d2) refl,
      rw (eq_parse, again false d2) refl,
      rw (eq_parse, again false d2) refl,
      rw (eq_parse, again true true) refl,
    )
