-- ===== src/Bittorrent/Seeding/Reached.antt =====
-- Which torrents have reached a seeding limit, in terms of durations and products.
use torrest_cpp.Prelude.{
  ℕ, ◌-◌, ◌*◌, ◌≤◌, ◌<◌, ◌≡◌, ◌≢◌, refl, sym, subst, ◌∙◌, ◌↔◌, ◌⊎◌, inl, inr, true, false, arith,
  ◌==◌, if◌then◌else◌, Bool-cases,
}
use torrest_cpp.Prelude.Int.{ℤ, pos_part, sub_ℕ}
use torrest_cpp.Bittorrent.Seeding.{
  Done, below, exactly, above, Status, Limits, Entry, seed_time_reached, seed_time_ratio_reached,
  get_seeding_time, limit_reached, is_passed_over,
}
use torrest_cpp.Bittorrent.Seeding.Ratios.{share_ratio_reached_iff, seed_time_ratio_reached_iff}

-- The time that a torrent has seeded: that since it finished where it is complete and libtorrent has
-- counted none.
pub data HasSeeded (st : Status) : ℕ → Type 0 where
  since_finished :
      (n : ℕ)
      → st.progress ≡ exactly
      → st.seeding_duration ≡ 0
      → n ≡ st.finished_duration
      → HasSeeded st n
  as_seeding :
      (n : ℕ)
      → ¬ ((st.progress ≡ exactly) × (st.seeding_duration ≡ 0))
      → n ≡ st.seeding_duration
      → HasSeeded st n

-- The three limits; one that is not positive is not set. The ratios are percentages.
abbrev pub HasReached : Limits → Status → ℕ → Type 0
HasReached l st seeded =
    ((0 < pos_part l.seed_time_limit) × (pos_part l.seed_time_limit ≤ seeded))
    ⊎ (((0 < pos_part l.seed_time_ratio_limit)
          × (seeded < st.active_duration)
          × (pos_part l.seed_time_ratio_limit * (st.active_duration - seeded) ≤ seeded * 100))
        ⊎ ((0 < pos_part l.share_ratio_limit)
            × (0 < st.all_time_download)
            × (pos_part l.share_ratio_limit * st.all_time_download ≤ st.all_time_upload * 100)))

-- The torrent is not paused, has metadata and a valid handle.
abbrev pub TakesPart : Entry → Type 0
TakesPart e = (e.torrent.is_paused ≡ false) × (e.torrent.has_metadata ≡ true) × (e.is_valid ≡ true)

-- The torrent takes part, has all that is wanted of it, and has reached a limit.
abbrev pub IsToPause : Limits → Entry → Type 0
IsToPause l e =
    TakesPart e
    × (e.status.progress ≢ below)
    × ((n : ℕ) × HasSeeded e.status n × HasReached l e.status n)

pub TakesPart-iff : (e : Entry) → (is_passed_over e ≡ false) ↔ TakesPart e
TakesPart-iff e = (
  λ k. (ground arith, ground arith, ground arith),
  λ k. let a = k.0 in let b = k.1 in let c = k.2 in ground arith,
)

seeded_exactly :
    (seeding finished : ℕ) (st : Status)
    → st.progress ≡ exactly
    → st.seeding_duration ≡ seeding
    → HasSeeded st (if seeding == 0 then st.finished_duration else seeding)
seeded_exactly seeding finished st d e = elim (Bool-cases (seeding == 0)) [
  | inl none_ ↦ rw none_ (since_finished st.finished_duration d (ground arith) refl)
  | inr some_ ↦ rw some_ (as_seeding seeding (λ k. absurd (let z = k.1 in ground arith)) (sym e))
]

get_seeding_time-HasSeeded : (st : Status) → HasSeeded st (get_seeding_time st)
unfolding get_seeding_time
get_seeding_time-HasSeeded st = go st.progress refl
  where
    go :
        (d : Done)
        → st.progress ≡ d
        → HasSeeded st (elim d [
          | exactly ↦ if st.seeding_duration == 0 then st.finished_duration else st.seeding_duration
          | below ↦ st.seeding_duration
          | above ↦ st.seeding_duration
        ])
    go below e = as_seeding st.seeding_duration (λ k. absurd (let z = k.0 in cc)) refl
    go exactly e = seeded_exactly st.seeding_duration st.finished_duration st e refl
    go above e = as_seeding st.seeding_duration (λ k. absurd (let z = k.0 in cc)) refl

-- There is one such time.
HasSeeded-unique : (st : Status) (m n : ℕ) → HasSeeded st m → HasSeeded st n → m ≡ n
HasSeeded-unique st m n (since_finished _ a b e) (since_finished _ c d f) = e ∙ sym f
HasSeeded-unique st m n (since_finished _ a b e) (as_seeding _ c f) = absurd (c (a, b))
HasSeeded-unique st m n (as_seeding _ c e) (since_finished _ a b f) = absurd (c (a, b))
HasSeeded-unique st m n (as_seeding _ c e) (as_seeding _ d f) = e ∙ sym f

pos_part-sub_ℕ : (a b : ℕ) → pos_part (sub_ℕ a b) ≡ a - b
pos_part-sub_ℕ a b = ground arith

seed_time_reached_iff :
    (limit : ℤ) (n : ℕ)
    → (seed_time_reached limit n ≡ true) ↔ ((0 < pos_part limit) × (pos_part limit ≤ n))
unfolding seed_time_reached
seed_time_reached_iff limit n =
    (λ e. (ground arith, ground arith), λ k. let a = k.0 in let b = k.1 in ground arith)

-- The download time is a difference.
ratio_reached_iff :
    (limit : ℤ) (active n : ℕ)
    → (seed_time_ratio_reached limit (sub_ℕ active n) n ≡ true)
      ↔ ((0 < pos_part limit) × (n < active) × (pos_part limit * (active - n) ≤ n * 100))
ratio_reached_iff limit active n =
    let core = seed_time_ratio_reached_iff limit (sub_ℕ active n) n in
    let diff = pos_part-sub_ℕ active n in
    (
      λ e.
          let (a, b, c) = core.0 e in
          let b2 : 0 < active - n = subst (λ z. 0 < z) diff b in
          (a, omega arith, subst (λ z. pos_part limit * z ≤ n * 100) diff c),
      λ k.
          let b : 0 < active - n = let lt = k.1 in omega arith in
          core.1 (
            k.0,
            subst (λ z. 0 < z) (sym diff) b,
            subst (λ z. pos_part limit * z ≤ n * 100) (sym diff) k.2,
          ),
    )

-- The three tests, the second of which takes a difference.
limit_reached_iff :
    (l : Limits) (st : Status) → (limit_reached l st ≡ true) ↔ HasReached l st (get_seeding_time st)
unfolding limit_reached
limit_reached_iff l st =
    let n = get_seeding_time st in
    let time = seed_time_reached_iff l.seed_time_limit n in
    let ratio = ratio_reached_iff l.seed_time_ratio_limit st.active_duration n in
    let share_ =
      share_ratio_reached_iff l.share_ratio_limit st.all_time_download st.all_time_upload in
    elim (Bool-cases (seed_time_reached l.seed_time_limit n)) [
      | inl a ↦ rw a ((λ _. inl (time.0 a)), λ _. refl)
      | inr a ↦
          elim (Bool-cases
            (seed_time_ratio_reached l.seed_time_ratio_limit (sub_ℕ st.active_duration n) n)) [
              | inl b ↦ rw (a, b) ((λ _. inr (inl (ratio.0 b))), λ _. refl)
              | inr b ↦
                  rw (a, b)
                    (
                      (λ e. inr (inr (share_.0 e))),
                      λ k. elim k [
                        | inl t ↦ absurd (let z = time.1 t in cc)
                        | inr m ↦ elim m [
                          | inl r ↦ absurd (let z = ratio.1 r in cc)
                          | inr w ↦ share_.1 w
                        ]
                      ],
                    )
            ]
    ]

pub limit_reached-HasReached :
    (l : Limits) (st : Status)
    → (limit_reached l st ≡ true) ↔ ((n : ℕ) × HasSeeded st n × HasReached l st n)
limit_reached-HasReached l st = (
  λ e. (get_seeding_time st, get_seeding_time-HasSeeded st, (limit_reached_iff l st).0 e),
  λ (n, seeded, reached). (limit_reached_iff l st).1 (
      subst (HasReached l st)
        (HasSeeded-unique st n (get_seeding_time st) seeded (get_seeding_time-HasSeeded st))
        reached),
)
