-- ===== src/Bittorrent/Service/Lookup.antt =====
-- How lookups change with the list of torrents.
use torrest_cpp.Prelude.{
  ◌≡◌, refl, sym, ◌∙◌, ◌⊎◌, inl, inr, Bool, true, false, none, some, List, [], ◌∷◌, ◌++◌,
  if◌then◌else◌, Bool-cases, Option-cases, Bytes,
}
use torrest_cpp.Bittorrent.Torrent.{Torrent}
use torrest_cpp.Bittorrent.Service.{Service, find_torrent, has_torrent, erase}

-- What `boost::iequals` is: an equivalence.
pub record IsEquivalence (iequals : Bytes → Bytes → Bool) : Type 0 where
  pub same : (a : Bytes) → iequals a a ≡ true
  pub flip : (a b : Bytes) → iequals a b ≡ true → iequals b a ≡ true
  pub chain : (a b c : Bytes) → iequals a b ≡ true → iequals b c ≡ true → iequals a c ≡ true

module _ (iequals : Bytes → Bytes → Bool) where
  -- No torrent is found under the info hash of an earlier one.
  abbrev pub Unique : List Torrent → Type 0
  Unique [] = Unit {0}
  Unique (t ∷ ts) = (find_torrent iequals t.info_hash ts ≡ none) × Unique ts

  module _ (e : IsEquivalence iequals) where
    -- Info hashes that are equal but for case are equal to the same ones.
    pub iequals-same : (a b c : Bytes) → iequals a b ≡ true → iequals c a ≡ iequals c b
    iequals-same a b c ab = elim (Bool-cases (iequals c a)) [
      | inl ca ↦ let cb = e.chain c a b ca ab in cc
      | inr nca ↦ elim (Bool-cases (iequals c b)) [
        | inl cb ↦ absurd (let ca = e.chain c b a cb (e.flip a b ab) in cc)
        | inr ncb ↦ cc
      ]
    ]

    pub find_torrent-same :
        (a b : Bytes) (ts : List Torrent)
        → iequals a b ≡ true
        → find_torrent iequals a ts ≡ find_torrent iequals b ts
    unfolding find_torrent
    find_torrent-same a b [] ab = refl
    find_torrent-same a b (t ∷ ts) ab =
        rw (iequals-same a b t.info_hash ab, find_torrent-same a b ts ab) refl

    -- An erased torrent is not found any more.
    pub find_torrent-erase_self :
        (h : Bytes) (ts : List Torrent)
        → Unique ts
        → find_torrent iequals h (erase iequals h ts) ≡ none
    unfolding find_torrent erase
    find_torrent-erase_self h [] u = refl
    find_torrent-erase_self h (t ∷ ts) u = elim (Bool-cases (iequals t.info_hash h)) [
      | inl y ↦ rw y (sym (find_torrent-same t.info_hash h ts y) ∙ u.0)
      | inr n ↦ rw (n, find_torrent) (rw n (find_torrent-erase_self h ts u.1))
    ]

    -- Another torrent is found as before.
    pub find_torrent-erase :
        (h g : Bytes) (ts : List Torrent)
        → iequals g h ≡ false
        → find_torrent iequals g (erase iequals h ts) ≡ find_torrent iequals g ts
    unfolding find_torrent erase
    find_torrent-erase h g [] n = refl
    find_torrent-erase h g (t ∷ ts) n = elim (Bool-cases (iequals t.info_hash h)) [
      | inl y ↦ elim (Bool-cases (iequals t.info_hash g)) [
        | inl tg ↦ absurd (let gh = e.chain g t.info_hash h (e.flip t.info_hash g tg) y in cc)
        | inr ntg ↦ rw (y, ntg) refl
      ]
      | inr ny ↦ rw (ny, find_torrent, find_torrent-erase h g ts n) refl
    ]

  pub find_torrent-none :
      (g : Bytes) (t : Torrent) (ts : List Torrent)
      → find_torrent iequals g (t ∷ ts) ≡ none
      → (iequals t.info_hash g ≡ false) × (find_torrent iequals g ts ≡ none)
  unfolding find_torrent
  find_torrent-none g t ts n = elim (Bool-cases (iequals t.info_hash g)) [
    | inl y ↦ absurd (let some_none : some t ≡ none = sym (rw y refl) ∙ n in cc)
    | inr ny ↦ (ny, sym (rw ny refl) ∙ n)
  ]

  pub find_torrent-erase-none :
      (h g : Bytes) (ts : List Torrent)
      → find_torrent iequals g ts ≡ none
      → find_torrent iequals g (erase iequals h ts) ≡ none
  unfolding find_torrent erase
  find_torrent-erase-none h g [] n = refl
  find_torrent-erase-none h g (t ∷ ts) n =
      let (ny, rest) = find_torrent-none g t ts n in
      elim (Bool-cases (iequals t.info_hash h)) [
        | inl y ↦ rw y rest
        | inr nh ↦ rw (nh, find_torrent) (rw ny (find_torrent-erase-none h g ts rest))
      ]

  pub erase-Unique : (h : Bytes) (ts : List Torrent) → Unique ts → Unique (erase iequals h ts)
  unfolding erase
  erase-Unique h [] u = tt
  erase-Unique h (t ∷ ts) u = elim (Bool-cases (iequals t.info_hash h)) [
    | inl y ↦ rw y u.1
    | inr n ↦ rw n (find_torrent-erase-none h t.info_hash ts u.0, erase-Unique h ts u.1)
  ]

  -- A torrent at the end is found if no other is.
  pub find_torrent-append :
      (g : Bytes) (ts : List Torrent) (t : Torrent)
      → find_torrent iequals g (ts ++ t ∷ []) ≡ elim (find_torrent iequals g ts) [
        | some x ↦ some x
        | none ↦ if iequals t.info_hash g then some t else none
      ]
  unfolding find_torrent
  find_torrent-append g [] t = refl
  find_torrent-append g (x ∷ ts) t = elim (Bool-cases (iequals x.info_hash g)) [
    | inl y ↦ rw y refl
    | inr n ↦ rw n (find_torrent-append g ts t)
  ]

module _ (iequals : Bytes → Bytes → Bool) (e : IsEquivalence iequals) where
  pub append-Unique :
      (ts : List Torrent) (t : Torrent)
      → find_torrent iequals t.info_hash ts ≡ none
      → Unique iequals ts
      → Unique iequals (ts ++ t ∷ [])
  unfolding find_torrent
  append-Unique [] t n u = (refl, tt)
  append-Unique (x ∷ ts) t n u =
      let (nx, rest) = find_torrent-none iequals t.info_hash x ts n in
      let not_t : iequals t.info_hash x.info_hash ≡ false =
        elim (Bool-cases (iequals t.info_hash x.info_hash)) [
          | inl y ↦ absurd (let back = e.flip t.info_hash x.info_hash y in cc)
          | inr ny ↦ ny
        ] in
      (
        find_torrent-append iequals x.info_hash ts t ∙ rw (u.0, not_t) refl,
        append-Unique ts t rest u.1,
      )

-- Whether there is a torrent, by the lookup.
pub has_torrent-find :
    (iequals : Bytes → Bytes → Bool) (h : Bytes) (s : Service)
    → ((has_torrent iequals h s ≡ true)
        × (t : Torrent) × (find_torrent iequals h s.torrents ≡ some t))
      ⊎ ((has_torrent iequals h s ≡ false) × (find_torrent iequals h s.torrents ≡ none))
unfolding has_torrent
has_torrent-find iequals h s = elim (Option-cases (find_torrent iequals h s.torrents)) [
  | inl n ↦ inr (rw n refl, n)
  | inr (t, y) ↦ inl (rw y refl, t, y)
]
