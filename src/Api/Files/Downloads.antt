-- ===== src/Api/Files/Downloads.antt =====
-- What a download of one file changes.
use torrest_cpp.Prelude.{
  ℕ, suc, ◌+◌, ◌/◌, ◌≤◌, ◌<◌, ◌≡◌, refl, sym, subst, ◌⊎◌, inl, inr, Bool, true, false, none, some,
  List, [], ◌∷◌, arith, ltb, ltb→lt, ltb-false, Bool-cases, Option-cases, set, Bytes, bytes,
}
use torrest_cpp.Prelude.Int.{ℤ, pos, negsuc, pos_part, ◌≤ℤ◌}
use torrest_cpp.Prelude.{ok, err, Result-cases}
use torrest_cpp.Bittorrent.Handle.{Handle, HandleCall, set_file_priority, default_priority}
use torrest_cpp.Bittorrent.Exceptions.{Exception, invalid_info_hash}
use torrest_cpp.Bittorrent.File.{File, set_priority}
use torrest_cpp.Bittorrent.File.Buffer.{IsBuffered, buffer-IsBuffered}
use torrest_cpp.Bittorrent.Service.{Service, find_torrent, must_find_torrent}
use torrest_cpp.Bittorrent.Torrent.{Torrent, get_file}
use torrest_cpp.Api.Errors.{bittorrent}
use torrest_cpp.Bittorrent.Service.Store.{Replaced, with_torrent-Replaced}
use torrest_cpp.Api.Torrents.{Change}
use torrest_cpp.Api.Files.{start_size, end_size, start_file, download_file}

-- The file at its new priority, nothing buffered.
abbrev pub downloading : File → File
downloading f = record f {
  priority = default_priority;
  is_buffering = false;
  buffer_size = 0;
  buffer_pieces = [];
}

-- The file and the calls: the priority, and behind it those of the buffer if there is one.
pub data Starts (buffer_size : ℤ) (h : Handle) (f : File)
    : Bool → File → List HandleCall → Type 0 where
  unbuffered :
      Starts buffer_size h f false (downloading f) (set_file_priority f.index default_priority ∷ [])
  buffered :
      (size : ℕ) (g : File) (cs : List HandleCall)
      → f.size / 200 ≤ size
      → buffer_size ≤ℤ pos size
      → (size ≡ f.size / 200) ⊎ (pos size ≡ buffer_size)
      → IsBuffered h (downloading f) size 10485760 g cs
      → Starts buffer_size h f true g (set_file_priority f.index default_priority ∷ cs)

start_size_max :
    (buffer_size : ℤ) (f : File)
    → (size : ℕ) × (start_size buffer_size f ≡ pos size)
      × (f.size / 200 ≤ size)
      × (buffer_size ≤ℤ pos size)
      × ((size ≡ f.size / 200) ⊎ (pos size ≡ buffer_size))
unfolding start_size
start_size_max (negsuc n) f = (
  f.size / 200,
  rw (ltb-false (f.size / 200 + suc n) 0 (omega arith)) refl,
  omega arith,
  omega arith,
  inl refl,
)
start_size_max (pos n) f = elim (Bool-cases (ltb (f.size / 200 + 0) (n + 0))) [
  | inl e ↦
      let lt = ltb→lt (f.size / 200 + 0) (n + 0) e in
      (n, rw e refl, omega arith, omega arith, inr refl)
  | inr e ↦
      let le : n ≤ f.size / 200 = ground arith in
      (f.size / 200, rw e refl, omega arith, omega arith, inl refl)
]

start_file-Starts :
    (buffer_size : ℤ) (is_buffered : Bool) (h : Handle) (f : File)
    → 0 < f.piece_length
    → (g : File) × (cs : List HandleCall) × (start_file buffer_size is_buffered h f ≡ ok (g, cs))
      × Starts buffer_size h f is_buffered g cs
unfolding start_file set_priority
start_file-Starts buffer_size false h f long = (downloading f, _, refl, unbuffered)
start_file-Starts buffer_size true h f long =
    let (size, same, above, enough, one) = start_size_max buffer_size (downloading f) in
    let (g, cs, ran, is_buffered) = buffer-IsBuffered h (pos size) end_size (downloading f) long in
    (
      g,
      set_file_priority f.index default_priority ∷ cs,
      rw (same, ran) refl,
      buffered size g cs above enough one is_buffered,
    )

module _ (iequals : Bytes → Bytes → Bool) (handle_of : Torrent → Handle) (buffer_size : ℤ)
    (h : Bytes) (index : ℤ) (is_buffered : Bool) (s : Service) where
  -- How a download ends, by the torrent and the file.
  pub data Downloads : Change → Type 0 where
    unknown_torrent :
        find_torrent iequals h s.torrents ≡ none → Downloads (err (bittorrent invalid_info_hash))
    no_file :
        (t : Torrent) (e : Exception)
        → find_torrent iequals h s.torrents ≡ some t
        → get_file index t ≡ err e
        → Downloads (err (bittorrent e))
    started :
        (t : Torrent) (f g : File) (s2 : Service) (cs : List HandleCall)
        → find_torrent iequals h s.torrents ≡ some t
        → get_file index t ≡ ok f
        → Starts buffer_size (handle_of t) f is_buffered g cs
        → Replaced iequals h t (record t { files = set t.files (pos_part index) g }) s s2
        → Downloads (ok ((200, bytes "File downloading"), s2, cs))

  -- A download of a file sets its priority and leaves the other files and the other torrents; if it is to
  -- be buffered, it also asks for the pieces of its first bytes, the larger of a 200th of it and of the
  -- setting, and of its last 10 MiB, and counts them. It fails for an unknown torrent or file only. The
  -- pieces of the torrent's files are not empty.
  pub download_file-Downloads :
      ((t : Torrent) (f : File)
        → find_torrent iequals h s.torrents ≡ some t
        → get_file index t ≡ ok f
        → 0 < f.piece_length)
      → Downloads (download_file iequals handle_of buffer_size h index is_buffered s)
  unfolding download_file must_find_torrent
  download_file-Downloads long = elim (Option-cases (find_torrent iequals h s.torrents)) [
    | inl gone ↦ subst Downloads (sym (rw gone refl)) (unknown_torrent gone)
    | inr (t, found) ↦ elim (Result-cases (get_file index t)) [
      | inr (e, missing) ↦
          subst Downloads (sym (rw (found, missing) refl)) (no_file t e found missing)
      | inl (f, there) ↦
          let (g, cs, ran, starts) =
            start_file-Starts buffer_size is_buffered (handle_of t) f (long t f found there) in
          subst Downloads (sym (rw (found, there, ran) refl)) (
            started t f g _ cs found there starts
              (with_torrent-Replaced iequals h t _ s found refl))
    ]
  ]
