-- ===== src/Bittorrent/Seeding/Ratios.antt =====
-- The limits in terms of products: the divisions of the source lose nothing.
use native.Mathlib.Nat.{le-div_iff_mul-le}
use torrest_cpp.Prelude.{
  ℕ, ◌*◌, ◌/◌, ◌≤◌, ◌<◌, ◌≡◌, ◌↔◌, true, ◌&&◌, arith, ltb, leb, ltb→lt, leb→le,
}
use torrest_cpp.Prelude.Int.{ℤ, pos_part}
use torrest_cpp.Bittorrent.Seeding.{seed_time_ratio_reached, share_ratio_reached}

-- `&&` of three tests, the last of a quotient.
tests_iff :
    (k d n : ℕ) → ((ltb 0 k && ltb 0 d && leb k (n / d)) ≡ true) ↔ ((0 < k) × (0 < d) × (k * d ≤ n))
tests_iff k d n = (
  (λ e.
      let k_pos : 0 < k = ltb→lt 0 k (ground arith) in
      let d_pos : 0 < d = ltb→lt 0 d (ground arith) in
      let le : k ≤ n / d = leb→le k (n / d) (ground arith) in
      (k_pos, d_pos, (le-div_iff_mul-le d_pos).0 le)),
  λ b. let le : k ≤ n / d = (le-div_iff_mul-le b.1).1 b.2 in ground (arith, b.0, b.1, le),
)

-- The share ratio limit is reached exactly when it is set, something was downloaded, and the upload is at
-- least that percentage of the download; the share is not rounded.
pub share_ratio_reached_iff :
    (limit : ℤ) (download upload : ℕ)
    → (share_ratio_reached limit download upload ≡ true)
      ↔ ((0 < pos_part limit) × (0 < download) × (pos_part limit * download ≤ upload * 100))
unfolding share_ratio_reached
share_ratio_reached_iff limit download upload = tests_iff (pos_part limit) download (upload * 100)

-- The seeding time ratio limit is reached exactly when it is set, the download took some time, and the
-- seeding time is at least that percentage of it; the ratio is not rounded.
pub seed_time_ratio_reached_iff :
    (limit download_time : ℤ) (seeding_time : ℕ)
    → (seed_time_ratio_reached limit download_time seeding_time ≡ true) ↔ (
        (0 < pos_part limit)
        × (0 < pos_part download_time)
        × (pos_part limit * pos_part download_time ≤ seeding_time * 100))
unfolding seed_time_ratio_reached
seed_time_ratio_reached_iff limit download_time seeding_time =
    tests_iff (pos_part limit) (pos_part download_time) (seeding_time * 100)
