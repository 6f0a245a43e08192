-- ===== src/Bittorrent/Service/Loading/Files.antt =====
-- The entries of a directory that are loaded, and the files of parts that are cleaned, described
-- without the code's own tests.
use torrest_cpp.Prelude.{
  ℕ, ◌≡◌, refl, sym, subst, ◌↔◌, ◌⊎◌, ◌≢◌, ◌==◌, inl, inr, Bool, true, false, ◌&&◌, List, [], ◌∷◌,
  arith, Bool-cases, Bytes, bytes, bytes_eq, bytes_eq_iff,
}
use torrest_cpp.Text.{ltrim, contains_byte}
use torrest_cpp.Bittorrent.Service.{Service, ServiceCall, remove_file, has_torrent}
use torrest_cpp.Bittorrent.Service.Loading.{Entry, with_extension, parts_hash, stale_parts}
use torrest_cpp.Bittorrent.Service.Loading.Additions.{Calls}

-- The paths of the regular files with an extension, in the order of the entries.
pub data FilesOf (extension : Bytes) : List Entry → List Bytes → Type 0 where
  none_left : FilesOf extension [] []
  taken :
      (p : Entry) {ps : List Entry} {fs : List Bytes}
      → p.is_regular_file ≡ true
      → p.extension ≡ extension
      → FilesOf extension ps fs
      → FilesOf extension (p ∷ ps) (p.path ∷ fs)
  passed :
      (p : Entry) {ps : List Entry} {fs : List Bytes}
      → ¬ ((p.is_regular_file ≡ true) × (p.extension ≡ extension))
      → FilesOf extension ps fs
      → FilesOf extension (p ∷ ps) fs

pub with_extension-FilesOf :
    (ext : Bytes) (ps : List Entry) → FilesOf ext ps (with_extension ext ps)
unfolding with_extension
with_extension-FilesOf ext [] = none_left
with_extension-FilesOf ext (p ∷ ps) =
    elim (Bool-cases (p.is_regular_file && bytes_eq p.extension ext)) [
      | inl e ↦
          let same : bytes_eq p.extension ext ≡ true = ground arith in
          subst (FilesOf ext (p ∷ ps)) (sym (rw e refl)) (
            taken p (ground arith) ((bytes_eq_iff p.extension ext).0 same)
              (with_extension-FilesOf ext ps))
      | inr e ↦ subst (FilesOf ext (p ∷ ps)) (sym (rw e refl)) (
          passed p (λ k. ground (arith, (bytes_eq_iff p.extension ext).1 k.1, k.0))
            (with_extension-FilesOf ext ps))
    ]

-- What is left of a text without the dots that lead it.
pub data Undotted : Bytes → Bytes → Type 0 where
  dot : {s h : Bytes} → Undotted s h → Undotted (b'.' ∷ s) h
  undotted_end : Undotted [] []
  letter : (c : ℕ) (s : Bytes) → c ≢ b'.' → Undotted (c ∷ s) (c ∷ s)

ltrim-Undotted : (s : Bytes) → Undotted s (ltrim s (bytes "."))
unfolding ltrim contains_byte
ltrim-Undotted [] = undotted_end
ltrim-Undotted (c ∷ s) = elim (Bool-cases (c == b'.')) [
  | inl here ↦
      let e : c ≡ b'.' = ground arith in
      subst (λ d. Undotted (d ∷ s) (ltrim (d ∷ s) (bytes "."))) (sym e) (dot (ltrim-Undotted s))
  | inr apart ↦
      subst (Undotted (c ∷ s)) (sym (rw apart refl)) (letter c s (λ e. absurd (ground arith)))
]

Undotted-ltrim : (s h : Bytes) → Undotted s h → h ≡ ltrim s (bytes ".")
unfolding ltrim contains_byte
Undotted-ltrim _ h (dot u) = Undotted-ltrim _ h u
Undotted-ltrim _ _ undotted_end = refl
Undotted-ltrim _ _ (letter c s other) =
    let apart : (c == b'.') ≡ false = ground arith in rw apart refl

module _ (iequals : Bytes → Bytes → Bool) where
  -- The name of a file of parts is the hash behind its dots, of a torrent that is not there.
  abbrev pub IsOrphan : Service → Bytes → Type 0
  IsOrphan s stem = (h : Bytes) × Undotted stem h × (has_torrent iequals h s ≡ false)

  IsOrphan-iff :
      (s : Service) (p : Entry) → IsOrphan s p.stem ↔ (has_torrent iequals (parts_hash p) s ≡ false)
  unfolding parts_hash
  IsOrphan-iff s p = (
    λ (h, u, lacks). subst (λ g. has_torrent iequals g s ≡ false) (Undotted-ltrim p.stem h u) lacks,
    λ lacks. (ltrim p.stem (bytes "."), ltrim-Undotted p.stem, lacks),
  )

  -- The call removes a file of parts whose torrent is not there.
  abbrev pub IsStale : Service → ServiceCall → List Entry → Type 0
  IsStale s c [] = ⊥
  IsStale s c (p ∷ ps) =
      ((p.extension ≡ bytes ".parts")
        × (p.is_regular_file ≡ true)
        × IsOrphan s p.stem
        × (remove_file p.path ≡ c))
      ⊎ IsStale s c ps

  pub stale_parts_iff :
      (s : Service) (c : ServiceCall) (ps : List Entry)
      → Calls c (stale_parts iequals s ps) ↔ IsStale s c ps
  unfolding stale_parts
  stale_parts_iff s c [] = (λ i. i, λ i. i)
  stale_parts_iff s c (p ∷ ps) =
      let ih = stale_parts_iff s c ps in
      elim (Bool-cases (bytes_eq p.extension (bytes ".parts") && p.is_regular_file)) [
        | inr e ↦ rw e (
          λ i. inr (ih.0 i),
          λ i. elim i [
            | inl (ext, regular, _, _) ↦
                absurd (let k = (bytes_eq_iff p.extension (bytes ".parts")).1 ext in ground arith)
            | inr rest ↦ ih.1 rest
          ],
        )
        | inl e ↦
            let ext : p.extension ≡ bytes ".parts" =
              (bytes_eq_iff p.extension (bytes ".parts")).0 (ground arith) in
            let regular : p.is_regular_file ≡ true = ground arith in
            elim (Bool-cases (has_torrent iequals (parts_hash p) s)) [
              | inl has ↦
                  rw (e, has)
                    (
                      λ i. inr (ih.0 i),
                      λ i. elim i [
                        | inl (_, _, lacks, _) ↦ absurd (let k = (IsOrphan-iff s p).0 lacks in cc)
                        | inr rest ↦ ih.1 rest
                      ],
                    )
              | inr lacks ↦
                  rw (e, lacks)
                    (
                      λ i. elim i [
                        | inl same ↦ inl (ext, regular, (IsOrphan-iff s p).1 lacks, same)
                        | inr rest ↦ inr (ih.0 rest)
                      ],
                      λ i. elim i [ inl (_, _, _, same) ↦ inl same | inr rest ↦ inr (ih.1 rest) ],
                    )
            ]
      ]
