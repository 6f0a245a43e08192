-- ===== src/Prelude/Slices.antt =====
-- Slices of a byte sequence: the `n` elements from an offset on.
use Prim.Native.Nat.{ℕ, zero, suc, ◌+◌, ◌-◌, ◌≤◌, min}
use mathlib.Core.Path.{◌≡◌, refl, sym, ◌∙◌, subst}
use mathlib.Core.Logic.{◌⊎◌, inl, inr}
use mathlib.Core.List.{List, [], ◌∷◌, ◌++◌}
use native.Mathlib.Omega.{arith}
use torrest_cpp.Prelude.Lists.{length, take, drop, length-take, length-drop}

le_total : (a b : ℕ) → (a ≤ b) ⊎ (b ≤ a)
le_total a b = omega arith

suc-add : (a b : ℕ) → suc a + b ≡ suc (a + b)
suc-add a b = omega arith

zero-add' : (b : ℕ) → zero + b ≡ b
zero-add' b = omega arith

module _ {ℓ} {A : Type ℓ} where
  take-nil : (n : ℕ) → take n (let e : List A = [] in e) ≡ []
  take-nil zero = refl
  take-nil (suc n) = refl

  drop-nil : (n : ℕ) → drop n (let e : List A = [] in e) ≡ []
  drop-nil zero = refl
  drop-nil (suc n) = refl

module _ {ℓ} {A : Type ℓ} where
  -- `n` elements of `xs` from `off` on, fewer where `xs` ends before.
  abbrev pub slice : ℕ → ℕ → List A → List A
  slice off n xs = take n (drop off xs)

  pub length-slice : (off n : ℕ) (xs : List A) → off + n ≤ length xs → length (slice off n xs) ≡ n
  length-slice off n xs h = omega (arith, length-take n (drop off xs), length-drop off xs)

  pub drop-drop : (a b : ℕ) (xs : List A) → drop b (drop a xs) ≡ drop (a + b) xs
  drop-drop zero b xs = rw (zero-add' b)
  drop-drop (suc a) b [] = rw (suc-add a b) (drop-nil b)
  drop-drop (suc a) b (x ∷ xs) = rw (suc-add a b) (drop-drop a b xs)

  pub take-append-take-drop :
      (a b : ℕ) (xs : List A) → take a xs ++ take b (drop a xs) ≡ take (a + b) xs
  take-append-take-drop zero b xs = rw (zero-add' b)
  take-append-take-drop (suc a) b [] = rw (suc-add a b) (take-nil b)
  take-append-take-drop (suc a) b (x ∷ xs) = rw (suc-add a b, take-append-take-drop a b xs)

  -- Two slices that meet are one slice.
  pub slice-append :
      (off a b : ℕ) (xs : List A) → slice off a xs ++ slice (off + a) b xs ≡ slice off (a + b) xs
  slice-append off a b xs = rw (← drop-drop off a xs) (take-append-take-drop a b (drop off xs))

  pub take-drop : (a b : ℕ) (xs : List A) → drop a (take (a + b) xs) ≡ take b (drop a xs)
  take-drop zero b xs = rw (zero-add' b)
  take-drop (suc a) b [] = rw (suc-add a b) (sym (take-nil b))
  take-drop (suc a) b (x ∷ xs) = rw (suc-add a b) (take-drop a b xs)

  pub take-take : (a b : ℕ) (xs : List A) → take a (take (a + b) xs) ≡ take a xs
  take-take zero b xs = refl
  take-take (suc a) b [] = rw (suc-add a b)
  take-take (suc a) b (x ∷ xs) = rw (suc-add a b, take-take a b xs)

  -- A slice of a slice that lies within it.
  pub slice-slice :
      (off len o n : ℕ) (xs : List A)
      → o + n ≤ len
      → slice o n (slice off len xs) ≡ slice (off + o) n xs
  slice-slice off len o n xs h =
      let e : len ≡ o + (n + (len - o - n)) = omega arith in
      rw (e, take-drop o (n + (len - o - n)), take-take n (len - o - n), drop-drop off o xs)

  drop_all : (c : ℕ) (xs : List A) → length xs ≤ c → drop c xs ≡ []
  drop_all c [] h = drop-nil c
  drop_all zero (x ∷ xs) h = absurd (omega arith)
  drop_all (suc c) (x ∷ xs) h = drop_all c xs (omega arith)

  pub take-take-min : (a b : ℕ) (xs : List A) → take a (take b xs) ≡ take (min a b) xs
  take-take-min zero b xs = let e : min 0 b ≡ 0 = omega arith in rw e refl
  take-take-min (suc a) zero xs = let e : min (suc a) 0 ≡ 0 = omega arith in rw e refl
  take-take-min (suc a) (suc b) [] =
      let e : min (suc a) (suc b) ≡ suc (min a b) = omega arith in rw e refl
  take-take-min (suc a) (suc b) (x ∷ xs) =
      let e : min (suc a) (suc b) ≡ suc (min a b) = omega arith in rw (e, take-take-min a b xs) refl

  -- What is left of a slice behind its first elements.
  pub drop-slice :
      (c off n : ℕ) (xs : List A) → drop c (slice off n xs) ≡ slice (off + min c n) (n - min c n) xs
  drop-slice c off n xs = elim (le_total c n) [
    | inl within ↦
        let e : n ≡ c + (n - c) = omega arith in
        let m : min c n ≡ c = omega arith in
        rw m (
          subst (λ k. drop c (take k (drop off xs)) ≡ slice (off + c) (n - c) xs) (sym e)
            (take-drop c (n - c) (drop off xs) ∙ rw (drop-drop off c xs) refl))
    | inr beyond ↦
        let z : n - min c n ≡ 0 = omega arith in
        rw z (drop_all c (slice off n xs) (omega (arith, length-take n (drop off xs))))
  ]

  -- A list splits where its first part ends.
  pub take-append : (xs ys : List A) (n : ℕ) → length xs ≡ n → take n (xs ++ ys) ≡ xs
  take-append [] ys zero e = refl
  take-append [] ys (suc n) e = absurd (omega arith)
  take-append (x ∷ xs) ys zero e = absurd (omega arith)
  take-append (x ∷ xs) ys (suc n) e = rw (take-append xs ys n (omega arith))

  pub drop-append : (xs ys : List A) (n : ℕ) → length xs ≡ n → drop n (xs ++ ys) ≡ ys
  drop-append [] ys zero e = refl
  drop-append [] ys (suc n) e = absurd (omega arith)
  drop-append (x ∷ xs) ys zero e = absurd (omega arith)
  drop-append (x ∷ xs) ys (suc n) e = drop-append xs ys n (omega arith)
