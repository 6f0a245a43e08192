-- ===== src/Text/Unescape.antt =====
-- `unescape_string` against the grammar of escaped text.
use torrest_cpp.Prelude.{
  ℕ, ◌+◌, ◌*◌, ◌≤◌, ◌<◌, ◌≡◌, ◌≢◌, ◌↔◌, inl, inr, refl, [], ◌∷◌, Option, none, some, arith, Bytes,
  leb, ◌==◌, ◌&&◌, Result, ok, err, ==-false, ==_iff, Bool-cases,
}
use torrest_cpp.Text.{
  InvalidEscape, invalid_escaped_string, hex_digit, escaped, keep, round, unescape_string,
}

-- A hexadecimal digit and its value.
pub data Hex (h a : ℕ) : Type 0 where
  digit : a < 10 → h ≡ b'0' + a → Hex h a
  upper : 10 ≤ a → a < 16 → h + 10 ≡ b'A' + a → Hex h a
  lower : 10 ≤ a → a < 16 → h + 10 ≡ b'a' + a → Hex h a

-- What an escaped text stands for.
pub data Decodes : Bytes → Bytes → Type 0 where
  done : Decodes [] []
  space : {c d : ℕ} {s t : Bytes} → c ≡ b'+' → d ≡ b' ' → Decodes s t → Decodes (c ∷ s) (d ∷ t)
  plain : {c : ℕ} {s t : Bytes} → c ≢ b'+' → c ≢ b'%' → Decodes s t → Decodes (c ∷ s) (c ∷ t)
  percent :
      {c h l a b : ℕ} {s t : Bytes}
      → c ≡ b'%'
      → Hex h a
      → Hex l b
      → Decodes s t
      → Decodes (c ∷ h ∷ l ∷ s) ((a * 16 + b) ∷ t)

hex_digit-Hex : {h a : ℕ} → Hex h a → hex_digit h ≡ some a
unfolding hex_digit
hex_digit-Hex (digit lt e) = ground arith
hex_digit-Hex (upper le lt e) = ground arith
hex_digit-Hex (lower le lt e) = ground arith

Hex-hex_digit : (h a : ℕ) → hex_digit h ≡ some a → Hex h a
unfolding hex_digit
Hex-hex_digit h a e = elim (Bool-cases (leb b'0' h && leb h b'9')) [
  | inl d ↦ digit (ground arith) (ground arith)
  | inr nd ↦ elim (Bool-cases (leb b'A' h && leb h b'F')) [
    | inl u ↦ upper (ground arith) (ground arith) (ground arith)
    | inr nu ↦ lower (ground arith) (ground arith) (ground arith)
  ]
]

unescape_string_nil : unescape_string [] ≡ ok []
unfolding unescape_string
unescape_string_nil = refl

unescape_string_plain :
    (c : ℕ) (s : Bytes) {t : Bytes}
    → c ≢ b'+'
    → c ≢ b'%'
    → unescape_string s ≡ ok t
    → unescape_string (c ∷ s) ≡ ok (c ∷ t)
unfolding unescape_string
unescape_string_plain c [] p q e = ground arith
unescape_string_plain c (h ∷ []) p q e = rw (==-false c b'+' p, ==-false c b'%' q, e)
unescape_string_plain c (h ∷ l ∷ s) p q e = rw (==-false c b'+' p, ==-false c b'%' q, e)

unescape_string_space :
    (c d : ℕ) (s : Bytes) {t : Bytes}
    → c ≡ b'+'
    → d ≡ b' '
    → unescape_string s ≡ ok t
    → unescape_string (c ∷ s) ≡ ok (d ∷ t)
unfolding unescape_string
unescape_string_space c d [] p q e = ground arith
unescape_string_space c d (h ∷ []) p q e = rw (p, q, e)
unescape_string_space c d (h ∷ l ∷ s) p q e = rw (p, q, e)

unescape_string_percent :
    (c h l a b : ℕ) (s : Bytes) {t : Bytes}
    → c ≡ b'%'
    → hex_digit h ≡ some a
    → hex_digit l ≡ some b
    → unescape_string s ≡ ok t
    → unescape_string (c ∷ h ∷ l ∷ s) ≡ ok ((a * 16 + b) ∷ t)
unfolding unescape_string
unescape_string_percent c h l a b s p eh el e = rw (p, eh, el, e)

unescape_string_complete : {s t : Bytes} → Decodes s t → unescape_string s ≡ ok t
unescape_string_complete done = unescape_string_nil
unescape_string_complete (space {c} {d = d'} {s} p q d) =
    unescape_string_space c d' s p q (unescape_string_complete d)
unescape_string_complete (plain {c} {s} p q d) =
    unescape_string_plain c s p q (unescape_string_complete d)
unescape_string_complete (percent {c} {h} {l} {a} {b} {s} p hh hl d) =
    unescape_string_percent c h l a b s p (hex_digit-Hex hh) (hex_digit-Hex hl)
      (unescape_string_complete d)

keep-eq-ok :
    (c : ℕ) (r : Result InvalidEscape Bytes) {t : Bytes}
    → keep c r ≡ ok t
    → (u : Bytes) × (r ≡ ok u) × (t ≡ c ∷ u)
keep-eq-ok c (ok u) e = (u, refl, ground arith)
keep-eq-ok c (err x) e = absurd (cc)

escaped-eq-ok :
    (x y : Option ℕ) (r : Result InvalidEscape Bytes) {t : Bytes}
    → escaped x y r ≡ ok t
    → (a : ℕ) × (b : ℕ) × (u : Bytes) × (x ≡ some a)
      × (y ≡ some b)
      × (r ≡ ok u)
      × (t ≡ (a * 16 + b) ∷ u)
escaped-eq-ok (some a) (some b) (ok u) e = (a, b, u, refl, refl, refl, ground arith)
escaped-eq-ok (some a) (some b) (err x) e = absurd (cc)
escaped-eq-ok (some a) none r e = absurd (cc)
escaped-eq-ok none y r e = absurd (cc)

-- One round of the loop, given its other rounds.
round-Decodes :
    (c : ℕ) (r : Bytes) (next after_percent : Result InvalidEscape Bytes) {t : Bytes}
    → round c next after_percent ≡ ok t
    → ((u : Bytes) → next ≡ ok u → Decodes r u)
    → (c ≡ b'%' → after_percent ≡ ok t → Decodes (c ∷ r) t)
    → Decodes (c ∷ r) t
round-Decodes c r next after_percent e ih ip = elim (Bool-cases (c == b'+')) [
  | inl p ↦
      let (u, eu, et) = keep-eq-ok b' ' next (rw p at e) in
      rw et (space ((==_iff c b'+').0 p) refl (ih u eu))
  | inr np ↦ elim (Bool-cases (c == b'%')) [
    | inl p ↦ ip ((==_iff c b'%').0 p) (rw (np, p) at e)
    | inr nq ↦
        let (u, eu, et) = keep-eq-ok c next (rw (np, nq) at e) in
        rw et (plain (ground arith) (ground arith) (ih u eu))
  ]
]

unescape_string_sound : (s t : Bytes) → unescape_string s ≡ ok t → Decodes s t
unfolding unescape_string
unescape_string_sound [] t e = let e' : t ≡ [] = ground arith in rw e' done
unescape_string_sound (c ∷ []) t e =
    round-Decodes c [] (ok []) (err invalid_escaped_string) e
      (λ u eu. let eu' : u ≡ [] = ground arith in rw eu' done) (λ _ x. absurd (cc))
unescape_string_sound (c ∷ h ∷ []) t e =
    round-Decodes c (h ∷ []) (unescape_string (h ∷ [])) (err invalid_escaped_string) e
      (unescape_string_sound (h ∷ [])) (λ _ x. absurd (cc))
unescape_string_sound (c ∷ h ∷ l ∷ s) t e =
    let ih = unescape_string_sound s in
    round-Decodes c (h ∷ l ∷ s) (unescape_string (h ∷ l ∷ s)) _ e
      (unescape_string_sound (h ∷ l ∷ s))
      λ p x.
        let (a, b, u, ea, eb, eu, et) =
          escaped-eq-ok (hex_digit h) (hex_digit l) (unescape_string s) x in
        rw et (percent p (Hex-hex_digit h a ea) (Hex-hex_digit l b eb) (ih u eu))

-- `unescape_string` returns `t` exactly when `t` is what the text stands for: `+` is a space, `%` with
-- two hexadecimal digits the byte that they write, any other byte itself. On any other text it throws.
pub unescape_string-eq-ok_iff : (s t : Bytes) → (unescape_string s ≡ ok t) ↔ Decodes s t
unescape_string-eq-ok_iff s t = (unescape_string_sound s t, unescape_string_complete)
