-- ===== src/Bittorrent/Torrent/Files.antt =====
-- The files of a torrent: how they are numbered, found, prioritised and checked.
use torrest_cpp.Prelude.{
  ℕ, zero, suc, ◌+◌, ◌≤◌, ◌≡◌, refl, sym, ◌↔◌, ◌⊎◌, inl, inr, Bool, true, false, ◌||◌, none, some,
  List, [], ◌∷◌, ◌++◌, arith, ◌==◌, if◌then◌else◌, ==_iff, Bool-cases, Option-cases, length,
  get_elem?,
}
use torrest_cpp.Prelude.Int.{ℤ, pos, negsuc, ◌+ℤ◌, ◌≤ℤ◌, int_laws}
use torrest_cpp.Prelude.{Result, ok, err}
use torrest_cpp.Bittorrent.Handle.{Handle, HandleCall, set_file_priority}
use torrest_cpp.Bittorrent.Exceptions.{Exception, no_metadata, invalid_file_index}
use torrest_cpp.Bittorrent.File.{File, FileEntry, make_file}
use torrest_cpp.Bittorrent.File
use torrest_cpp.Bittorrent.File.Verify.{IsVerified, verify_buffering_state-IsVerified}
use torrest_cpp.Bittorrent.Missing.Laws.{IsConsistent, AllReceived}
use torrest_cpp.Bittorrent.Torrent.{
  Torrent, Metadata, make_files, handle_metadata_received, set_priorities, set_priority, get_file,
  verify_files, verify_buffering_state,
}

-- The file stands for its entry: its place, its priority, nothing buffered.
pub record IsFresh (i piece_length priority : ℕ) (e : FileEntry) (f : File) : Type 0 where
  pub index : f.index ≡ i
  pub offset : f.offset ≡ e.offset
  pub size : f.size ≡ e.size
  pub path : f.path ≡ e.path
  pub length_of_pieces : f.piece_length ≡ piece_length
  pub same_priority : f.priority ≡ priority
  pub idle : f.is_buffering ≡ false
  pub no_pieces : f.buffer_pieces ≡ []

abbrev pub AllFresh : ℕ → ℕ → List (ℕ × FileEntry) → List File → Type 0
AllFresh piece_length i [] [] = Unit {0}
AllFresh piece_length i ((p, e) ∷ es) (f ∷ fs) =
    IsFresh i piece_length p e f × AllFresh piece_length (i + 1) es fs
AllFresh piece_length i _ _ = ⊥

make_file_lem :
    (h : Handle) (i l p : ℕ) (e : FileEntry)
    → (f : File) × (cs : List HandleCall) × (make_file h i l p e ≡ ok (f, cs)) × IsFresh i l p e f
unfolding make_file File.set_priority
make_file_lem h i l p e =
    let f : File = record {
      index = i;
      offset = e.offset;
      size = e.size;
      path = e.path;
      name = e.name;
      piece_length = l;
      priority = p;
      is_buffering = false;
      buffer_pieces = [];
      buffer_size = 0;
    } in
    let fresh : IsFresh i l p e f = record {
      index = refl;
      offset = refl;
      size = refl;
      path = refl;
      length_of_pieces = refl;
      same_priority = refl;
      idle = refl;
      no_pieces = refl;
    } in
    elim (Bool-cases (p == 0)) [
      | inl z ↦
          let zero_eq : 0 ≡ p = sym ((==_iff p 0).0 z) in
          (
            f,
            set_file_priority i 0 ∷ [],
            rw z (λ j. ok (record f { priority = zero_eq j }, set_file_priority i 0 ∷ [])),
            fresh,
          )
      | inr nz ↦ (f, [], rw nz refl, fresh)
    ]

make_files_lem :
    (h : Handle) (l i : ℕ) (es : List (ℕ × FileEntry))
    → (fs : List File) × (cs : List HandleCall) × (make_files h l i es ≡ ok (fs, cs))
      × AllFresh l i es fs
unfolding make_files
make_files_lem h l i [] = ([], [], refl, tt)
make_files_lem h l i ((p, e) ∷ es) =
    let (f, cs, ef, fresh) = make_file_lem h i l p e in
    let (fs, ds, efs, all) = make_files_lem h l (i + 1) es in
    (f ∷ fs, cs ++ ds, rw (ef, efs) refl, (fresh, all))

-- When the metadata arrives the torrent has one file for each entry, in order and numbered from 0, with
-- the entry's place and priority and nothing buffered, whatever files it had.
pub handle_metadata_received_lem :
    (h : Handle) (m : Metadata) (t : Torrent)
    → (fs : List File) × (cs : List HandleCall) × (handle_metadata_received h m t
        ≡ ok (record t { files = fs; has_metadata = true }, cs))
      × AllFresh m.piece_length 0 m.entries fs
unfolding handle_metadata_received
handle_metadata_received_lem h m t =
    let (fs, cs, e, all) = make_files_lem h m.piece_length 0 m.entries in (fs, cs, rw e refl, all)

-- How a lookup of a file may end.
pub data Finds (t : Torrent) : ℤ → Result Exception File → Type 0 where
  found :
      (i : ℕ) (f : File)
      → t.has_metadata ≡ true
      → get_elem? t.files i ≡ some f
      → Finds t (pos i) (ok f)
  unknown_index :
      (i : ℤ)
      → t.has_metadata ≡ true
      → ¬ ((pos 0 ≤ℤ i) × (pos 1 +ℤ i ≤ℤ pos (length t.files)))
      → Finds t i (err invalid_file_index)
  unready : (i : ℤ) → t.has_metadata ≡ false → Finds t i (err no_metadata)

get_elem?-none : {A : Type 0} (xs : List A) (i : ℕ) → get_elem? xs i ≡ none → length xs ≤ i
get_elem?-none [] i e = omega arith
get_elem?-none (x ∷ xs) zero e = absurd (cc)
get_elem?-none (x ∷ xs) (suc i) e = omega (arith, get_elem?-none xs i e)

-- A file is found by its index, which may be any integer: without metadata no file is, and an index
-- that is negative or past the last file is refused.
pub get_file-Finds : (i : ℤ) (t : Torrent) → Finds t i (get_file i t)
unfolding get_file
get_file-Finds (pos i) t = elim (Bool-cases t.has_metadata) [
  | inl m ↦ elim (Option-cases (get_elem? t.files i)) [
    | inl e ↦
        simp (m, e)
          (unknown_index (pos i) m
            (λ b. absurd (let k = b.1 in omega (int_laws, get_elem?-none t.files i e))))
    | inr (f, e) ↦ simp (m, e) (found i f m e)
  ]
  | inr nm ↦ simp nm (unready (pos i) nm)
]
get_file-Finds (negsuc n) t = elim (Bool-cases t.has_metadata) [
  | inl m ↦ simp m (unknown_index (negsuc n) m (λ b. absurd (let k = b.0 in omega arith)))
  | inr nm ↦ simp nm (unready (negsuc n) nm)
]

abbrev pub with_priority : ℕ → List File → List File
with_priority p [] = []
with_priority p (f ∷ fs) =
    record f { priority = p; is_buffering = false; buffer_size = 0; buffer_pieces = [] }
    ∷ with_priority p fs

abbrev pub priority_calls : ℕ → List File → List HandleCall
priority_calls p [] = []
priority_calls p (f ∷ fs) = set_file_priority f.index p ∷ priority_calls p fs

set_priorities_lem :
    (h : Handle) (p : ℕ) (fs : List File)
    → set_priorities h p fs ≡ ok (with_priority p fs, priority_calls p fs)
unfolding set_priorities File.set_priority
set_priorities_lem h p [] = refl
set_priorities_lem h p (f ∷ fs) = rw (set_priorities_lem h p fs) refl

-- With metadata the priority of a torrent is set on each of its files, once and in order, and each
-- stops buffering and forgets its buffered pieces; without, it throws.
pub set_priority_lem :
    (h : Handle) (p : ℕ) (t : Torrent)
    → set_priority h p t ≡ (
        if t.has_metadata
        then ok (record t { files = with_priority p t.files }, priority_calls p t.files)
        else err no_metadata)
unfolding set_priority
set_priority_lem h p t = elim (Bool-cases t.has_metadata) [
  | inl m ↦ simp (m, set_priorities_lem h p t.files) refl
  | inr n ↦ simp n refl
]

-- Some file is buffering and waits for a piece.
abbrev pub Waits : Handle → List File → Type 0
Waits h [] = ⊥
Waits h (f ∷ fs) = ((f.is_buffering ≡ true) × (¬ AllReceived h f.buffer_pieces)) ⊎ Waits h fs

-- Each file has been checked.
abbrev pub AllVerified : Handle → List File → List File → Type 0
AllVerified h [] [] = Unit {0}
AllVerified h (f ∷ fs) (g ∷ gs) = ((b : Bool) × IsVerified h f g b) × AllVerified h fs gs
AllVerified h _ _ = ⊥

verify_files_lem :
    (h : Handle) (fs : List File)
    → IsConsistent h
    → (gs : List File) × (b : Bool) × (verify_files h fs ≡ ok (gs, b))
      × ((b ≡ true) ↔ Waits h fs)
      × AllVerified h fs gs
unfolding verify_files
verify_files_lem h [] c = ([], false, refl, ((λ x. absurd (cc)), λ x. absurd x), tt)
verify_files_lem h (f ∷ fs) c =
    let (g, b, eg, v) = verify_buffering_state-IsVerified h f c in
    let (gs, d, egs, iff, all) = verify_files_lem h fs c in
    (
      g ∷ gs,
      b || d,
      rw (eg, egs) refl,
      (
        (λ e. elim (Bool-cases b) [
          | inl t ↦ inl (v.still_iff.0 t)
          | inr n ↦ inr (iff.0 (ground arith))
        ]),
        λ w. elim w [
          | inl x ↦ let t = v.still_iff.1 x in ground arith
          | inr x ↦ let t = iff.1 x in ground arith
        ],
      ),
      ((b, v), all),
    )

-- A torrent reports that it is buffering exactly when one of its files is buffering and has a buffered
-- piece that neither is there nor has come in full; every file is checked, those behind such a file
-- too, and keeps buffering exactly if it was and lacks such a piece; none is lost. What the handle says
-- is consistent.
pub verify_buffering_state_lem :
    (h : Handle) (t : Torrent)
    → IsConsistent h
    → (gs : List File) × (b : Bool) × (verify_buffering_state h t ≡ ok (record t { files = gs }, b))
      × ((b ≡ true) ↔ Waits h t.files)
      × AllVerified h t.files gs
unfolding verify_buffering_state
verify_buffering_state_lem h t c =
    let (gs, b, e, iff, all) = verify_files_lem h t.files c in (gs, b, rw e refl, iff, all)
