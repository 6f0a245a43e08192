-- ===== src/Api/Multipart/Parts.antt =====
-- Every range has its part, once and in order.
use torrest_cpp.Prelude.{
  ℕ, zero, suc, ◌≡◌, refl, sym, subst, inl, inr, Option, none, some, List, [], ◌∷◌, Option-cases,
  get_elem?, drop, Bytes, bytes,
}
use torrest_cpp.Bittorrent.File.{File}
use torrest_cpp.Api.Body.{Range}
use torrest_cpp.Api.Multipart.{Multipart, Part, make_multipart, make_part, read_next_part}

module _ {ℓ} {A : Type ℓ} where
  drop-get_elem? :
      (xs : List A) (n : ℕ) (x : A) → get_elem? xs n ≡ some x → drop n xs ≡ x ∷ drop (suc n) xs
  drop-get_elem? [] n x e = absurd (cc)
  drop-get_elem? (y ∷ xs) zero x e = cc
  drop-get_elem? (y ∷ xs) (suc n) x e = drop-get_elem? xs n x e

  drop-get_elem?-none : (xs : List A) (n : ℕ) → get_elem? xs n ≡ none → drop n xs ≡ []
  drop-get_elem?-none [] zero e = refl
  drop-get_elem?-none [] (suc n) e = refl
  drop-get_elem?-none (y ∷ xs) zero e = absurd (cc)
  drop-get_elem?-none (y ∷ xs) (suc n) e = drop-get_elem?-none xs n e

module _ (content_range : Range → ℕ → Bytes) where
  -- What `k` calls of `readNextPart` give, in order, and what is left behind them.
  pub data Reads : ℕ → Multipart → List (Option Part) → Multipart → Type 0 where
    stop : (m : Multipart) → Reads 0 m [] m
    call :
        (k : ℕ) (m : Multipart) {os : List (Option Part)} {m2 : Multipart}
        → Reads k (read_next_part content_range m).1 os m2
        → Reads (suc k) m ((read_next_part content_range m).0 ∷ os) m2

  -- The part of a range: its headers are the MIME type and the place of the range in the file.
  abbrev pub part_of : File → Bytes → Range → Part
  part_of file mime range = record {
    headers =
        (bytes "Content-Type", mime) ∷ (bytes "Content-Range", content_range range file.size) ∷ [];
    file = file;
    range = range;
  }

  -- The parts of ranges, then nothing.
  abbrev pub expected : ℕ → File → Bytes → List Range → List (Option Part)
  expected zero file mime ranges = []
  expected (suc k) file mime [] = none ∷ expected k file mime []
  expected (suc k) file mime (range ∷ ranges) =
      some (part_of file mime range) ∷ expected k file mime ranges

  Reads-step :
      (k : ℕ) (m : Multipart) (o : Option Part) (m1 : Multipart) (os : List (Option Part))
      (m2 : Multipart)
      → read_next_part content_range m ≡ (o, m1)
      → Reads k m1 os m2
      → Reads (suc k) m (o ∷ os) m2
  Reads-step k m o m1 os m2 eq r =
      subst (λ x. Reads (suc k) m (x.0 ∷ os) m2) eq
        (call k m (subst (λ x. Reads k x.1 os m2) (sym eq) r))

  Reads-rest :
      (k : ℕ) (m : Multipart)
      → (m2 : Multipart) × Reads k m (expected k m.file m.mime (drop m.next_range m.ranges)) m2
  unfolding read_next_part make_part
  Reads-rest zero m = (m, stop m)
  Reads-rest (suc k) m = elim (Option-cases (get_elem? m.ranges m.next_range)) [
    | inl e ↦
        let (m2, r) = Reads-rest k m in
        let gone = drop-get_elem?-none m.ranges m.next_range e in
        (
          m2,
          subst (λ l. Reads (suc k) m (expected (suc k) m.file m.mime l) m2) (sym gone)
              (Reads-step k m none m _ m2 (rw (e, read_next_part) refl)
                (subst (λ l. Reads k m (expected k m.file m.mime l) m2) gone r)),
        )
    | inr (range, e) ↦
        let next : Multipart = record m { next_range = suc m.next_range } in
        let (m2, r) = Reads-rest k next in
        let here = drop-get_elem? m.ranges m.next_range range e in
        (
          m2,
          subst (λ l. Reads (suc k) m (expected (suc k) m.file m.mime l) m2) (sym here)
              (Reads-step k m (some (part_of m.file m.mime range)) next _ m2
                (rw (e, read_next_part, make_part) refl) r),
        )
  ]

  -- However often a fresh multipart answer is asked for its next part, it gives a part for each range,
  -- once and in order, of the file and that range, whose headers are a Content-Type with the MIME type and
  -- a Content-Range with the range and the file's size, and then nothing any more.
  pub make_multipart-Reads :
      (k : ℕ) (file : File) (ranges : List Range) (mime : Bytes)
      → (m2 : Multipart) × Reads k
          (make_multipart file ranges mime)
          (expected k file mime ranges)
          m2
  unfolding make_multipart
  make_multipart-Reads k file ranges mime = Reads-rest k (make_multipart file ranges mime)
