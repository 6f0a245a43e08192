-- ===== src/Api/Items/Folders.antt =====
-- Folders by their paths, and the folder that a file is added to.
use torrest_cpp.Prelude.{
  ◌≡◌, refl, sym, ap, subst, ◌∙◌, ◌≢◌, inl, inr, true, false, Option, none, some, List, [], ◌∷◌,
  ◌++◌, if◌then◌else◌, Bool-cases, Bytes, bytes_eq, bytes_eq_iff,
}
use torrest_cpp.Bittorrent.File.{File}
use torrest_cpp.Bittorrent.File.Status.{FileStatus}
use torrest_cpp.Api.Items.{Folder, update_last, new_folder, add_to_folder, add_file}

unfoldable pub find_folder : Bytes → List Folder → Option Folder
find_folder p [] = none
find_folder p (g ∷ gs) = let rest = find_folder p gs in if bytes_eq g.path p then some g else rest

-- No path twice.
abbrev pub Distinct : List Folder → Type 0
Distinct [] = Unit
Distinct (g ∷ gs) = (find_folder g.path gs ≡ none) × Distinct gs

pub bytes_eq_refl : (p : Bytes) → bytes_eq p p ≡ true
bytes_eq_refl p = (bytes_eq_iff p p).1 refl

bytes_ne : (p q : Bytes) → p ≢ q → bytes_eq p q ≡ false
bytes_ne p q ne = elim (Bool-cases (bytes_eq p q)) [
  | inl e ↦ absurd (ne ((bytes_eq_iff p q).0 e))
  | inr e ↦ e
]

-- What `update_last` gives where the folder is not there and where it is.
pub data Updates (p : Bytes) (change : Folder → Folder) (gs : List Folder)
    : Option (List Folder) → Type 0 where
  absent : find_folder p gs ≡ none → Updates p change gs none
  changed :
      (g : Folder) (hs : List Folder)
      → find_folder p gs ≡ some g
      → find_folder p hs ≡ some (change g)
      → ((q : Bytes) → p ≢ q → find_folder q hs ≡ find_folder q gs)
      → Distinct hs
      → Updates p change gs (some hs)

module _ (p : Bytes) (change : Folder → Folder)
    (keeps : (g : Folder) → (change g).path ≡ g.path) where
  step :
      (g : Folder) (gs : List Folder) (o : Option (List Folder))
      → find_folder g.path gs ≡ none
      → Distinct gs
      → Updates p change gs o
      → Updates p change (g ∷ gs) (elim o [
        | some hs ↦ some (g ∷ hs)
        | none ↦ if bytes_eq g.path p then some (change g ∷ gs) else none
      ])
  unfolding find_folder
  step g gs none new d (absent e) = elim (Bool-cases (bytes_eq g.path p)) [
    | inr b ↦ subst (Updates p change (g ∷ gs)) (sym (rw b refl)) (absent (rw (b, e) refl))
    | inl b ↦
        let same : g.path ≡ p = (bytes_eq_iff g.path p).0 b in
        subst (Updates p change (g ∷ gs)) (sym (rw b refl)) (
          changed g (change g ∷ gs) (rw b refl) (rw (keeps g, b) refl)
            (λ q ne. let c = bytes_ne g.path q (λ x. ne (sym same ∙ x)) in rw (keeps g, c) refl)
            (rw (keeps g) new, d))
  ]
  step g gs (some _) new d (changed found hs e f others dh) =
      let apart : p ≢ g.path = λ same. absurd (let k = ap (λ x. find_folder x gs) same in cc) in
      let b = bytes_ne g.path p (λ x. apart (sym x)) in
      changed found (g ∷ hs) (rw (b, e) refl) (rw (b, f) refl)
        (λ q ne. ap (λ r. if bytes_eq g.path q then some g else r) (others q ne))
        (others g.path apart ∙ new, dh)

  update_last-Updates :
      (gs : List Folder) → Distinct gs → Updates p change gs (update_last p change gs)
  unfolding update_last find_folder
  update_last-Updates [] d = absent refl
  update_last-Updates (g ∷ gs) d =
      step g gs (update_last p change gs) d.0 d.1 (update_last-Updates gs d.1)

abbrev or_found : Bytes → Folder → Option Folder → Option Folder
or_found q g none = if bytes_eq g.path q then some g else none
or_found q g (some h) = some h

or_found_other : (q : Bytes) (g : Folder) (o : Option Folder) → g.path ≢ q → or_found q g o ≡ o
or_found_other q g none ne = rw (bytes_ne g.path q ne) refl
or_found_other q g (some h) ne = refl

find_folder-snoc :
    (q : Bytes) (g : Folder) (gs : List Folder)
    → find_folder q (gs ++ g ∷ []) ≡ or_found q g (find_folder q gs)
unfolding find_folder
find_folder-snoc q g [] = refl
find_folder-snoc q g (h ∷ gs) = elim (Bool-cases (bytes_eq h.path q)) [
  | inl b ↦ rw b refl
  | inr b ↦ rw b (find_folder-snoc q g gs)
]

Distinct-snoc :
    (g : Folder) (gs : List Folder)
    → Distinct gs
    → find_folder g.path gs ≡ none
    → Distinct (gs ++ g ∷ [])
unfolding find_folder
Distinct-snoc g [] d new = (refl, tt)
Distinct-snoc g (h ∷ gs) d new = elim (Bool-cases (bytes_eq h.path g.path)) [
  | inl b ↦ absurd (let k = rw b at new in cc)
  | inr b ↦
      let rest = rw b at new in
      let c =
        bytes_ne g.path h.path
          (λ e. let k = (bytes_eq_iff h.path g.path).1 (sym e) in absurd (cc)) in
      (find_folder-snoc h.path g gs ∙ rw (d.0, c) refl, Distinct-snoc g gs d.1 rest)
]

-- The folder of a file, new or one file larger.
abbrev pub grown : Bytes → Bytes → File → Option FileStatus → Option Folder → Folder
grown name path f s none = new_folder name path f s
grown name path f s (some g) = add_to_folder f s g

pub record Added (name path : Bytes) (f : File) (s : Option FileStatus) (gs hs : List Folder)
    : Type 0 where
  pub here : find_folder path hs ≡ some (grown name path f s (find_folder path gs))
  pub others : (q : Bytes) → path ≢ q → find_folder q hs ≡ find_folder q gs
  pub distinct : Distinct hs

added :
    (name path : Bytes) (f : File) (s : Option FileStatus) (gs : List Folder)
    → {o : Option (List Folder)} → Distinct gs
    → Updates path (add_to_folder f s) gs o
    → Added name path f s gs (elim o [ some hs ↦ hs | none ↦ gs ++ new_folder name path f s ∷ [] ])
unfolding new_folder
added name path f s gs d (absent e) = record {
  here = find_folder-snoc path (new_folder name path f s) gs ∙ rw (e, bytes_eq_refl path) refl;
  others = λ q ne.
      find_folder-snoc q (new_folder name path f s) gs
      ∙ or_found_other q (new_folder name path f s) (find_folder q gs) ne;
  distinct = Distinct-snoc (new_folder name path f s) gs d e;
}
added name path f s gs d (changed g hs e found others dh) = record {
  here = found ∙ rw e refl;
  others = others;
  distinct = dh;
}

pub add_file-Added :
    (name path : Bytes) (f : File) (s : Option FileStatus) (gs : List Folder)
    → Distinct gs
    → Added name path f s gs (add_file name path f s gs)
unfolding add_file add_to_folder
add_file-Added name path f s gs d =
    added name path f s gs d (update_last-Updates path (add_to_folder f s) (λ g. refl) gs d)
