-- ===== src/Api/Items/Sums.antt =====
-- A file more in the sums of a folder.
use torrest_cpp.Prelude.{
  ℕ, zero, suc, ◌+◌, ◌≡◌, refl, sym, subst, ◌∙◌, ◌≢◌, inl, inr, Bool, true, false, Option, none,
  some, List, [], ◌∷◌, ◌++◌, arith, ◌==◌, Bool-cases, length, get_elem?, length-append, get_or,
  Bytes,
}
use torrest_cpp.Prelude.{ok}
use torrest_cpp.Bittorrent.Handle.{Handle}
use torrest_cpp.Bittorrent.State.{get_torrent_state}
use torrest_cpp.Bittorrent.File.{File}
use torrest_cpp.Bittorrent.File.Status.{FileStatus, Percentage, get_status_known}
use torrest_cpp.Bittorrent.Torrent.{Torrent}
use torrest_cpp.Api.Items.{
  FolderStatus, Folder, optional, file_status, unwanted_status, wanted_status, first_status,
  add_total, add_wanted, next_status, first_statuses, next_statuses, new_folder, add_to_folder,
}
use torrest_cpp.Api.Items.Folders.{grown}
use torrest_cpp.Api.Items.Listing.{
  total, done, if_wanted, Sums, Statuses, Summary, no_files, counted,
}

-- The status is that of the file.
abbrev pub Tells : Bool → Handle → File → Option FileStatus → Type 0
Tells true h f none = ⊥
Tells true h f (some s) = (s.total ≡ f.size) × (s.total_done ≡ done h f) × (s.priority ≡ f.priority)
Tells false h f o = o ≡ none

get_or-get_elem? : (xs : List ℕ) (i d c : ℕ) → get_elem? xs i ≡ some c → get_or xs i d ≡ c
get_or-get_elem? [] i d c e = absurd (cc)
get_or-get_elem? (x ∷ xs) zero d c e = cc
get_or-get_elem? (x ∷ xs) (suc i) d c e = get_or-get_elem? xs i d c e

pub file_status_known :
    (status : Bool) (h : Handle) (t : Torrent) (f : File)
    → (status ≡ true → (c : ℕ) × (get_elem? h.file_progress f.index ≡ some c))
    → (o : Option FileStatus) × (file_status status h t f ≡ ok o) × Tells status h f o
unfolding file_status optional
file_status_known false h t f known = (none, refl, refl)
file_status_known true h t f known =
    let (c, e) = known refl in
    let (s, ran, size, came, priority) =
      get_status_known h (get_torrent_state t.is_paused t.has_metadata h) f c e in
    (
      some s,
      rw ran refl,
      (size, came ∙ sym (get_or-get_elem? h.file_progress f.index 0 c e), priority),
    )

total-snoc : (g : File → ℕ) (fs : List File) (f : File) → total g (fs ++ f ∷ []) ≡ total g fs + g f
total-snoc g [] f = omega arith
total-snoc g (k ∷ fs) f = omega (arith, total-snoc g fs f)

abbrev pub unset : FolderStatus → Option Percentage
unset s = none

unwanted : (g : File → ℕ) (f : File) → (f.priority == 0) ≡ true → if_wanted g f ≡ 0
unwanted g f e = rw e refl

wanted : (g : File → ℕ) (f : File) → (f.priority == 0) ≡ false → if_wanted g f ≡ g f
wanted g f e = rw e refl

first-Sums :
    (h : Handle) (f : File) (s : FileStatus)
    → Tells true h f (some s)
    → Sums h unset (f ∷ []) (first_status s)
unfolding first_status unwanted_status wanted_status
first-Sums h f s (a, b, c) = elim (Bool-cases (s.priority == 0)) [
  | inl e ↦
      let z : (f.priority == 0) ≡ true = rw c at e in
      subst (Sums h unset (f ∷ [])) {x = unwanted_status s} (sym (rw e refl)) (record {
        total_lem = omega arith;
        total_done_lem = omega arith;
        total_wanted_lem = omega (arith, unwanted (λ k. k.size) f z);
        total_wanted_done_lem = omega (arith, unwanted (done h) f z);
        wanted_count_lem = omega (arith, unwanted (λ k. 1) f z);
        progress_lem = refl;
      })
  | inr e ↦
      let z : (f.priority == 0) ≡ false = rw c at e in
      subst (Sums h unset (f ∷ [])) {x = wanted_status s} (sym (rw e refl)) (record {
        total_lem = omega arith;
        total_done_lem = omega arith;
        total_wanted_lem = omega (arith, wanted (λ k. k.size) f z);
        total_wanted_done_lem = omega (arith, wanted (done h) f z);
        wanted_count_lem = omega (arith, wanted (λ k. 1) f z);
        progress_lem = refl;
      })
]

next-Sums :
    (h : Handle) (ms : List File) (old : FolderStatus) (f : File) (s : FileStatus)
    → Sums h unset ms old
    → Tells true h f (some s)
    → Sums h unset (ms ++ f ∷ []) (next_status s old)
unfolding next_status add_total add_wanted
next-Sums h ms old f s z (a, b, c) =
    let size = total-snoc (λ k. k.size) ms f in
    let came = total-snoc (done h) ms f in
    let size_wanted = total-snoc (if_wanted (λ k. k.size)) ms f in
    let done_wanted = total-snoc (if_wanted (done h)) ms f in
    let count_wanted = total-snoc (if_wanted (λ k. 1)) ms f in
    let t = z.total_lem in
    let d = z.total_done_lem in
    let w = z.total_wanted_lem in
    let wd = z.total_wanted_done_lem in
    let wc = z.wanted_count_lem in
    elim (Bool-cases (s.priority == 0)) [
      | inl e ↦
          let y : (f.priority == 0) ≡ true = rw c at e in
          subst (Sums h unset (ms ++ f ∷ [])) {x = add_total s old} (sym (rw e refl)) (record {
            total_lem = omega arith;
            total_done_lem = omega arith;
            total_wanted_lem = omega (arith, unwanted (λ k. k.size) f y);
            total_wanted_done_lem = omega (arith, unwanted (done h) f y);
            wanted_count_lem = omega (arith, unwanted (λ k. 1) f y);
            progress_lem = z.progress_lem;
          })
      | inr e ↦
          let y : (f.priority == 0) ≡ false = rw c at e in
          subst (Sums h unset (ms ++ f ∷ [])) {x = add_wanted s (add_total s old)} (sym (rw e refl))
            (record {
              total_lem = omega arith;
              total_done_lem = omega arith;
              total_wanted_lem = omega (arith, wanted (λ k. k.size) f y);
              total_wanted_done_lem = omega (arith, wanted (done h) f y);
              wanted_count_lem = omega (arith, wanted (λ k. 1) f y);
              progress_lem = z.progress_lem;
            })
    ]

length-snoc : (ms : List File) (f : File) → length (ms ++ f ∷ []) ≡ length ms + 1
length-snoc ms f = length-append ms (f ∷ [])

snoc-ne-nil : (ms : List File) (f : File) → ms ++ f ∷ [] ≢ []
snoc-ne-nil [] f e = cc
snoc-ne-nil (m ∷ ms) f e = cc

first_statuses_lem :
    (status : Bool) (h : Handle) (f : File) (o : Option FileStatus)
    → Tells status h f o
    → Statuses status h unset (f ∷ []) (first_statuses o)
unfolding first_statuses
first_statuses_lem true h f none tells = elim tells [ ]
first_statuses_lem true h f (some s) tells = first-Sums h f s tells
first_statuses_lem false h f o tells = rw tells refl

next_statuses_lem :
    (status : Bool) (h : Handle) (ms : List File) (old : Option FolderStatus) (f : File)
    (o : Option FileStatus)
    → Statuses status h unset ms old
    → Tells status h f o
    → Statuses status h unset (ms ++ f ∷ []) (next_statuses o old)
unfolding next_statuses
next_statuses_lem true h ms none f o z tells = elim z [ ]
next_statuses_lem true h ms (some old) f none z tells = elim tells [ ]
next_statuses_lem true h ms (some old) f (some s) z tells = next-Sums h ms old f s z tells
next_statuses_lem false h ms old f o z tells = rw (z, tells) refl

-- The summary of one file more is the folder that has grown by it.
pub grown-Summary :
    (status : Bool) (h : Handle) (name p : Bytes) (ms : List File) (f : File)
    (o : Option FileStatus)
    → {found : Option Folder} → Summary status h unset p ms found
    → Tells status h f o
    → Summary status h unset p (ms ++ f ∷ []) (some (grown name p f o found))
unfolding new_folder add_to_folder
grown-Summary status h name p ms f o (no_files e) tells =
    subst (λ l. Summary status h unset p (l ++ f ∷ []) (some (new_folder name p f o))) (sym e)
      (counted _ (snoc-ne-nil [] f) refl (omega arith) refl (first_statuses_lem status h f o tells))
grown-Summary status h name p ms f o (counted g some_file path size count sums) tells =
    counted _ (snoc-ne-nil ms f) path (omega (arith, total-snoc (λ k. k.size) ms f))
      (omega (arith, length-snoc ms f)) (next_statuses_lem status h ms g.status f o sums tells)
