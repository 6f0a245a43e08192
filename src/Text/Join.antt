-- ===== src/Text/Join.antt =====
-- `join_string_vector` is undone by the `std::getline` loops of `Service::configure`.
use torrest_cpp.Prelude.{
  ℕ, ◌≡◌, refl, ap, ◌∙◌, ◌≢◌, ◌↔◌, true, List, [], ◌∷◌, ◌++◌, append-nil, append_assoc, arith,
  ==_iff, ==-false, Bytes, Bool-cases, inl, inr, ◌==◌,
}
use torrest_cpp.Text.{join_rest, join_string_vector, split_from, split, starts_with}

-- The delimiter is no byte of the text.
abbrev pub Lacks : ℕ → Bytes → Type 0
Lacks d [] = Unit {0}
Lacks d (c ∷ s) = (c ≢ d) × Lacks d s

abbrev pub AllLack : ℕ → List Bytes → Type 0
AllLack d [] = Unit {0}
AllLack d (x ∷ xs) = Lacks d x × AllLack d xs

split_from-append :
    (d : ℕ) (item x s : Bytes) → Lacks d x → split_from d item (x ++ s) ≡ split_from d (item ++ x) s
unfolding split_from
split_from-append d item [] s h = rw (append-nil item)
split_from-append d item (c ∷ x) s h =
    rw (==-false c d h.0, split_from-append d (item ++ c ∷ []) x s h.1)
      (ap (λ i. split_from d i s) (append_assoc item (c ∷ []) x))

split_from-join :
    (d : ℕ) (item : Bytes) (xs : List Bytes)
    → AllLack d xs
    → split_from d item (join_rest (d ∷ []) xs) ≡ item ∷ xs
unfolding split_from join_rest
split_from-join d item [] h = refl
split_from-join d item (x ∷ xs) h = rw ((==_iff d d).1 refl) (
    ap (λ r. item ∷ r)
      (split_from-append d [] x (join_rest (d ∷ []) xs) h.0 ∙ split_from-join d x xs h.1))

-- Splitting at the delimiter gives back the texts that were joined with it, if there is at least one
-- and none holds the delimiter.
pub split-join_string_vector :
    (d : ℕ) (x : Bytes) (xs : List Bytes)
    → AllLack d (x ∷ xs)
    → split d (join_string_vector (x ∷ xs) (d ∷ [])) ≡ x ∷ xs
unfolding split join_string_vector
split-join_string_vector d x xs h =
    split_from-append d [] x (join_rest (d ∷ []) xs) h.0 ∙ split_from-join d x xs h.1

-- The test for a prefix holds of exactly the texts that continue it.
pub starts_with_iff :
    (s start : Bytes) → (starts_with s start ≡ true) ↔ ((r : Bytes) × (s ≡ start ++ r))
unfolding starts_with
starts_with_iff s [] = ((λ _. (s, refl)), λ _. refl)
starts_with_iff [] (c ∷ start) = ((λ h. absurd (cc)), λ h. absurd (let e = h.1 in cc))
starts_with_iff (a ∷ s) (c ∷ start) = (
  λ h.
      let (r, e) = (starts_with_iff s start).0 (ground arith) in
      let same : a ≡ c = ground arith in (r, cc),
  λ h.
      let (r, e) = h in
      let rest : s ≡ start ++ r = ground arith in
      let ih = (starts_with_iff s start).1 (r, rest) in ground arith,
)

pub Lacks-append : (d : ℕ) (x y : Bytes) → Lacks d x → Lacks d y → Lacks d (x ++ y)
Lacks-append d [] y lx ly = ly
Lacks-append d (c ∷ x) y lx ly = (lx.0, Lacks-append d x y lx.1 ly)

split_from-AllLack : (d : ℕ) (item s : Bytes) → Lacks d item → AllLack d (split_from d item s)
unfolding split_from
split_from-AllLack d item [] lacks = (lacks, tt)
split_from-AllLack d item (c ∷ s) lacks = elim (Bool-cases (c == d)) [
  | inl e ↦ rw e (lacks, split_from-AllLack d [] s tt)
  | inr e ↦ rw e (
      split_from-AllLack d (item ++ c ∷ []) s
        (Lacks-append d item (c ∷ []) lacks ((λ same. let k = (==_iff c d).1 same in cc), tt)))
]

-- What a text is split into lacks the delimiter.
pub split-AllLack : (d : ℕ) (s : Bytes) → AllLack d (split d s)
unfolding split
split-AllLack d s = split_from-AllLack d [] s tt

split_from-cons :
    (d : ℕ) (item s : Bytes) → (x : Bytes) × (xs : List Bytes) × (split_from d item s ≡ x ∷ xs)
unfolding split_from
split_from-cons d item [] = (item, [], refl)
split_from-cons d item (c ∷ s) = elim (Bool-cases (c == d)) [
  | inl e ↦ (item, split_from d [] s, rw e refl)
  | inr e ↦ rw e (split_from-cons d (item ++ c ∷ []) s)
]

pub split-cons : (d : ℕ) (s : Bytes) → (x : Bytes) × (xs : List Bytes) × (split d s ≡ x ∷ xs)
unfolding split
split-cons d s = split_from-cons d [] s
