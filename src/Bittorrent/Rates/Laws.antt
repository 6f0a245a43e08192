-- ===== src/Bittorrent/Rates/Laws.antt =====
-- The session's limits follow the settings and the buffering, whatever is reconfigured.
use torrest_cpp.Prelude.{◌≡◌, refl, ◌∙◌, inl, inr, Bool, true, false, if◌then◌else◌, Bool-cases}
use torrest_cpp.Prelude.Int.{ℤ, pos}
use torrest_cpp.Bittorrent.Rates.{
  RateSettings, Rates, set_buffering_rate_limits, configure, reconfigure, make_rates, differs,
}

-- The session is limited as configured, or not at all; the latter only where the settings ask for it.
pub record InForce (r : Rates) : Type 0 where
  pub download :
      r.download_rate_limit ≡ (if r.rate_limited then r.settings.max_download_rate else pos 0)
  pub upload : r.upload_rate_limit ≡ (if r.rate_limited then r.settings.max_upload_rate else pos 0)
  pub asked : r.rate_limited ≡ false → r.settings.limit_after_buffering ≡ true

pub data Reachable : Rates → Type 0 where
  constructed : (s : RateSettings) (download upload : ℤ) → Reachable (make_rates s download upload)
  reconfigured : {r : Rates} (s : RateSettings) → Reachable r → Reachable (reconfigure s r)
  buffered :
      {r : Rates} (enable : Bool) → Reachable r → Reachable (set_buffering_rate_limits enable r)

reconfigure-InForce : (s : RateSettings) (r : Rates) → InForce r → InForce (reconfigure s r)
unfolding reconfigure configure
reconfigure-InForce s r f = elim (Bool-cases s.limit_after_buffering) [
  | inl late ↦ elim (Bool-cases r.rate_limited) [
    | inl on ↦ simp (late, on) (record { download = refl; upload = refl; asked = λ e. absurd (cc) })
    | inr off ↦
        simp (late, off)
          (record {
            download = f.download ∙ rw off refl;
            upload = f.upload ∙ rw off refl;
            asked = λ _. late;
          })
  ]
  | inr soon ↦ elim (Bool-cases r.rate_limited) [
    | inl on ↦ simp (soon, on) (record { download = refl; upload = refl; asked = λ e. absurd (cc) })
    | inr off ↦
        simp (soon, off) (record { download = refl; upload = refl; asked = λ e. absurd (cc) })
  ]
]

set_buffering_rate_limits-InForce :
    (enable : Bool) (r : Rates) → InForce r → InForce (set_buffering_rate_limits enable r)
unfolding set_buffering_rate_limits
set_buffering_rate_limits-InForce enable r f = elim (Bool-cases r.settings.limit_after_buffering) [
  | inl late ↦ elim (Bool-cases (differs r.rate_limited enable)) [
    | inl new ↦ simp (late, new) (record { download = refl; upload = refl; asked = λ _. late })
    | inr old ↦ simp (late, old) f
  ]
  | inr soon ↦ simp soon f
]

make_rates-InForce :
    (s : RateSettings) (download upload : ℤ) → InForce (make_rates s download upload)
unfolding make_rates configure
make_rates-InForce s download upload = elim (Bool-cases s.limit_after_buffering) [
  | inl late ↦ simp late (record { download = refl; upload = refl; asked = λ e. absurd (cc) })
  | inr soon ↦ simp soon (record { download = refl; upload = refl; asked = λ e. absurd (cc) })
]

-- However often the service is reconfigured and the buffering changes, the session's limits are those of
-- the settings while the service counts as limited and none while it does not, which it never does
-- unless the limits are to start after buffering.
pub Reachable-InForce : {r : Rates} → Reachable r → InForce r
Reachable-InForce (constructed s download upload) = make_rates-InForce s download upload
Reachable-InForce (reconfigured s r) = reconfigure-InForce s _ (Reachable-InForce r)
Reachable-InForce (buffered enable r) =
    set_buffering_rate_limits-InForce enable _ (Reachable-InForce r)
