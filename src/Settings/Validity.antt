-- ===== src/Settings/Validity.antt =====
-- The settings that pass the validation are those in the ranges that it names.
use torrest_cpp.Prelude.{
  ◌+◌, ◌<◌, ◌≡◌, refl, ◌≢◌, ◌↔◌, Bool, true, false, not, ◌||◌, Option, none, some, [], ◌∷◌,
  if◌then◌else◌, ltb→lt, lt→ltb, leb→le, le→leb, Bytes, bytes,
}
use torrest_cpp.Prelude.Int.{ℤ, pos, pos_part, neg_part, ◌≤ℤ◌, ltb_ℤ, leb_ℤ}
use torrest_cpp.Prelude.{ok, err, ◌>>◌, throw_if}
use torrest_cpp.Settings.{
  Invalid, Check, lt, gt, lte, gte, not_empty, ProxySettings, Settings, is_type,
  validate_credentials, validate_proxy, validate_if_any, validate,
}

-- A conjunction that nests to the right.
infixr 3 ◌&◌
abbrev pub ◌&◌ : Type 0 → Type 0 → Type 0
P & Q = P × Q

-- One below another.
infix 50 ◌<ℤ◌
abbrev pub ◌<ℤ◌ : ℤ → ℤ → Type 0
x <ℤ y = pos_part x + neg_part y < pos_part y + neg_part x

abbrev pub Accepts : Check → Type 0 → Type 0
Accepts m P = (m ≡ ok tt) ↔ P

then_Accepts : (m k : Check) {P Q : Type 0} → Accepts m P → Accepts k Q → Accepts (m >> k) (P & Q)
then_Accepts (ok tt) k a b = ((λ e. (a.0 refl, b.0 e)), λ h. b.1 h.1)
then_Accepts (err i) k a b = ((λ e. absurd (cc)), λ h. absurd (let bad = a.1 h.0 in cc))

throw_unless :
    (b : Bool) (i : Invalid) {P : Type 0} → (b ≡ true) ↔ P → Accepts (throw_if (not b) i) P
throw_unless true i h = ((λ _. h.0 refl), λ _. refl)
throw_unless false i h = ((λ e. absurd (cc)), λ p. absurd (let bad = h.1 p in cc))

lt_Accepts : (name : Bytes) (l x : ℤ) → Accepts (lt name l x) (x <ℤ l)
unfolding lt
lt_Accepts name l x = throw_unless (ltb_ℤ x l) _ (ltb→lt _ _, lt→ltb _ _)

gt_Accepts : (name : Bytes) (l x : ℤ) → Accepts (gt name l x) (l <ℤ x)
unfolding gt
gt_Accepts name l x = throw_unless (ltb_ℤ l x) _ (ltb→lt _ _, lt→ltb _ _)

lte_Accepts : (name : Bytes) (l x : ℤ) → Accepts (lte name l x) (x ≤ℤ l)
unfolding lte
lte_Accepts name l x = throw_unless (leb_ℤ x l) _ (leb→le _ _, le→leb _ _)

gte_Accepts : (name : Bytes) (l x : ℤ) → Accepts (gte name l x) (l ≤ℤ x)
unfolding gte
gte_Accepts name l x = throw_unless (leb_ℤ l x) _ (leb→le _ _, le→leb _ _)

not_empty_Accepts : (name x : Bytes) → Accepts (not_empty name x) (x ≢ [])
unfolding not_empty
not_empty_Accepts name [] = ((λ e. absurd (cc)), λ n. absurd (n refl))
not_empty_Accepts name (c ∷ x) = ((λ _ e. absurd (cc)), λ _. refl)

-- The user name and the password where the type of the proxy asks for them.
abbrev pub HasCredentials : ProxySettings → Type 0
HasCredentials p =
    if is_type p.type 1
    then p.username ≢ []
    else if is_type p.type 3 || is_type p.type 5
    then (p.username ≢ []) & (p.password ≢ [])
    else Unit {0}

abbrev pub IsValidProxy : ProxySettings → Type 0
IsValidProxy p =
    (pos 0 ≤ℤ p.type)
    & (p.type <ℤ pos 7)
    & (if is_type p.type 0
        then Unit {0}
        else ((pos 0 ≤ℤ p.port) & (p.port ≤ℤ pos 65535) & (p.hostname ≢ []) & HasCredentials p))

if_Accepts :
    (b : Bool) (m k : Check) {P Q : Type 0}
    → Accepts m P
    → Accepts k Q
    → Accepts (if b then m else k) (if b then P else Q)
if_Accepts true m k a c = a
if_Accepts false m k a c = c

ok_Accepts : Accepts (ok tt) (Unit {0})
ok_Accepts = ((λ _. tt), λ _. refl)

validate_credentials_Accepts :
    (p : ProxySettings) → Accepts (validate_credentials p) (HasCredentials p)
unfolding validate_credentials
validate_credentials_Accepts p =
    let user = not_empty_Accepts (bytes "username") p.username in
    let password = not_empty_Accepts (bytes "password") p.password in
    if_Accepts (is_type p.type 1) _ _ user (
      if_Accepts (is_type p.type 3 || is_type p.type 5) _ _ (then_Accepts _ _ user password)
        ok_Accepts)

validate_proxy_Accepts : (p : ProxySettings) → Accepts (validate_proxy p) (IsValidProxy p)
unfolding validate_proxy
validate_proxy_Accepts p = then_Accepts _ _ (gte_Accepts (bytes "type") (pos 0) p.type) (
    then_Accepts _ _ (lt_Accepts (bytes "type") (pos 7) p.type) (
      if_Accepts (is_type p.type 0) _ _ ok_Accepts (
        then_Accepts _ _ (gte_Accepts (bytes "port") (pos 0) p.port) (
          then_Accepts _ _ (lte_Accepts (bytes "port") (pos 65535) p.port) (
            then_Accepts _ _ (not_empty_Accepts (bytes "hostname") p.hostname)
              (validate_credentials_Accepts p))))))

abbrev pub IsValidIfAny : Option ProxySettings → Type 0
IsValidIfAny none = Unit {0}
IsValidIfAny (some p) = IsValidProxy p

validate_if_any_Accepts : (p : Option ProxySettings) → Accepts (validate_if_any p) (IsValidIfAny p)
unfolding validate_if_any
validate_if_any_Accepts none = ok_Accepts
validate_if_any_Accepts (some p) = validate_proxy_Accepts p

abbrev pub IsValid : ℤ → Settings → Type 0
IsValid n_levels s =
    (pos 0 ≤ℤ s.listen_port)
    & (s.listen_port ≤ℤ pos 65535)
    & (s.download_path ≢ [])
    & (s.torrents_path ≢ [])
    & (pos 0 <ℤ s.session_save)
    & (pos 0 ≤ℤ s.max_download_rate)
    & (pos 0 ≤ℤ s.max_upload_rate)
    & (pos 0 ≤ℤ s.share_ratio_limit)
    & (pos 0 ≤ℤ s.seed_time_ratio_limit)
    & (pos 0 ≤ℤ s.seed_time_limit)
    & (pos 0 ≤ℤ s.write_mode)
    & (s.write_mode <ℤ pos 4)
    & (pos 0 ≤ℤ s.encryption_policy)
    & (s.encryption_policy <ℤ pos 3)
    & (pos 0 ≤ℤ s.piece_wait_timeout)
    & (pos 0 <ℤ s.piece_expiration)
    & (pos 0 ≤ℤ s.service_log_level)
    & (s.service_log_level <ℤ n_levels)
    & (pos 0 ≤ℤ s.alerts_log_level)
    & (s.alerts_log_level <ℤ n_levels)
    & (pos 0 ≤ℤ s.api_log_level)
    & (s.api_log_level <ℤ n_levels)
    & IsValidIfAny s.proxy

-- One check behind another.
infixr 3 ◌&>◌
◌&>◌ : {m k : Check} {P Q : Type 0} → Accepts m P → Accepts k Q → Accepts (m >> k) (P & Q)
a &> b = then_Accepts _ _ a b

-- The validation accepts exactly the settings in the ranges: ports in 0 to 65535, the paths not empty,
-- the intervals positive, limits and rates not negative, the enumerations in their values, and of a
-- proxy that is used the host and the credentials that its type needs.
pub validate-eq-ok_iff :
    (n_levels : ℤ) (s : Settings) → (validate n_levels s ≡ ok tt) ↔ IsValid n_levels s
unfolding validate
validate-eq-ok_iff n_levels s =
    gte_Accepts (bytes "listen_port") (pos 0) s.listen_port
    &> lte_Accepts (bytes "listen_port") (pos 65535) s.listen_port
    &> not_empty_Accepts (bytes "download_path") s.download_path
    &> not_empty_Accepts (bytes "torrents_path") s.torrents_path
    &> gt_Accepts (bytes "session_save") (pos 0) s.session_save
    &> gte_Accepts (bytes "max_download_rate") (pos 0) s.max_download_rate
    &> gte_Accepts (bytes "max_upload_rate") (pos 0) s.max_upload_rate
    &> gte_Accepts (bytes "share_ratio_limit") (pos 0) s.share_ratio_limit
    &> gte_Accepts (bytes "seed_time_ratio_limit") (pos 0) s.seed_time_ratio_limit
    &> gte_Accepts (bytes "seed_time_limit") (pos 0) s.seed_time_limit
    &> gte_Accepts (bytes "write_mode") (pos 0) s.write_mode
    &> lt_Accepts (bytes "write_mode") (pos 4) s.write_mode
    &> gte_Accepts (bytes "encryption_policy") (pos 0) s.encryption_policy
    &> lt_Accepts (bytes "encryption_policy") (pos 3) s.encryption_policy
    &> gte_Accepts (bytes "piece_wait_timeout") (pos 0) s.piece_wait_timeout
    &> gt_Accepts (bytes "piece_expiration") (pos 0) s.piece_expiration
    &> gte_Accepts (bytes "service_log_level") (pos 0) s.service_log_level
    &> lt_Accepts (bytes "service_log_level") n_levels s.service_log_level
    &> gte_Accepts (bytes "alerts_log_level") (pos 0) s.alerts_log_level
    &> lt_Accepts (bytes "alerts_log_level") n_levels s.alerts_log_level
    &> gte_Accepts (bytes "api_log_level") (pos 0) s.api_log_level
    &> lt_Accepts (bytes "api_log_level") n_levels s.api_log_level
    &> validate_if_any_Accepts s.proxy
