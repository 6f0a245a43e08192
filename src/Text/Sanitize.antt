-- ===== src/Text/Sanitize.antt =====
-- `sanitize_ip_address` against a description that goes byte by byte.
use torrest_cpp.Prelude.{
  ℕ, ◌+◌, ◌≡◌, refl, sym, ap, inl, inr, Bool, true, false, [], ◌∷◌, ◌++◌, append-nil, append_assoc,
  arith, ltb, if◌then◌else◌, Bool-cases, length, replicate, Bytes, is_empty,
}
use torrest_cpp.Text.{is_separator, group, sanitize_from, sanitize_ip_address}

-- Each byte by itself: a separator stands, any other byte stands in the first groups and is an `X`
-- after them. `inside` tells that the byte before belongs to the group numbered `count`.
abbrev pub mask : ℕ → ℕ → Bool → Bytes → Bytes
mask leading_groups count inside [] = []
mask leading_groups count inside (c ∷ s) =
    if is_separator c
    then c ∷ mask leading_groups (if inside then count + 1 else count) false s
    else (if ltb count leading_groups then c else b'X') ∷ mask leading_groups count true s

abbrev nonempty : Bytes → Bool
nonempty [] = false
nonempty (_ ∷ _) = true

replicate-length-append :
    (cur : Bytes) (c x : ℕ)
    → replicate (length (cur ++ c ∷ [])) x ≡ replicate (length cur) x ++ x ∷ []
replicate-length-append [] c x = refl
replicate-length-append (_ ∷ cur) c x = ap (λ s. x ∷ s) (replicate-length-append cur c x)

group-append :
    (k n : ℕ) (cur : Bytes) (c : ℕ)
    → group n k (cur ++ c ∷ []) ≡ group n k cur ++ (if ltb k n then c else b'X') ∷ []
unfolding group
group-append k n [] c = ground arith
group-append k n (x ∷ cur) c = elim (Bool-cases (ltb k n)) [
  | inl e ↦ rw e
  | inr e ↦ rw e (ap (λ s. b'X' ∷ s) (replicate-length-append cur c b'X'))
]

nonempty-append : (cur : Bytes) (c : ℕ) → nonempty (cur ++ c ∷ []) ≡ true
nonempty-append [] c = refl
nonempty-append (x ∷ cur) c = refl

closed_count :
    (cur : Bytes) (k : ℕ)
    → (if is_empty cur then k else k + 1) ≡ (if nonempty cur then k + 1 else k)
closed_count [] k = refl
closed_count (x ∷ cur) k = refl

sanitize_from-mask :
    (n k : ℕ) (cur s : Bytes) → sanitize_from n k cur s ≡ group n k cur ++ mask n k (nonempty cur) s
unfolding sanitize_from
sanitize_from-mask n k cur [] = sym (append-nil _)
sanitize_from-mask n k cur (c ∷ s) =
    let closed = sanitize_from-mask n (if is_empty cur then k else k + 1) [] s in
    let longer = sanitize_from-mask n k (cur ++ c ∷ []) s in
    elim (Bool-cases (is_separator c)) [
      | inl e ↦ rw (e, closed, closed_count cur k) refl
      | inr e ↦
          rw (e, longer, nonempty-append cur c, group-append k n cur c)
            (append_assoc (group n k cur) _ (mask n k true s))
    ]

-- The loop over the groups keeps and masks byte by byte: the separators and the first groups stand,
-- every byte of a later group is an `X`.
pub sanitize_ip_address-mask : (ip : Bytes) (n : ℕ) → sanitize_ip_address ip n ≡ mask n 0 false ip
unfolding sanitize_ip_address
sanitize_ip_address-mask ip n = sanitize_from-mask n 0 [] ip
