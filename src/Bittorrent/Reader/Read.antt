-- ===== src/Bittorrent/Reader/Read.antt =====
-- `Reader::read` returns the bytes of the file, and ends.
use torrest_cpp.Prelude.{
  ℕ, ◌+◌, ◌-◌, ◌*◌, ◌/◌, ◌%◌, ◌≤◌, ◌<◌, ◌≡◌, refl, sym, ap, ◌∙◌, ◌≢◌, inl, inr, Option, none, some,
  List, arith, ltb, ◌==◌, if◌then◌else◌, ==_iff, Bool-cases, length, slice, length-slice, Bytes,
}
use torrest_cpp.Prelude.Int.{ℤ}
use native.Mathlib.Nat.{div-add-mod', mod-lt}
use torrest_cpp.Prelude.Division.{div_mono}
use torrest_cpp.Bittorrent.Handle.{Handle, HandleCall}
use torrest_cpp.Bittorrent.Exceptions.{Exception, out_of_bounds}
use torrest_cpp.Bittorrent.Pieces.{PieceData, Pieces, apply_events, Reading, got, threw, waiting}
use torrest_cpp.Bittorrent.Pieces.Waiting.{
  Holds, IsFaithful, AllTrue, WakesTrue, Delivers, read_piece-Delivers, apply_events-IsFaithful,
}
use torrest_cpp.Bittorrent.Pieces.Supply.{StoredInTime, read_piece-stored}
use torrest_cpp.Bittorrent.Wait.{Waited, arrived, failed, polling, wait_for_piece}
use torrest_cpp.Bittorrent.Reader.Monad.{
  Env, ReadState, Outcome, returned, raised, blocked, fetch, read_of, wait, waited, Post, Post->>=,
  continue,
}
use torrest_cpp.Bittorrent.Reader.Window.{
  piece_bytes, IsValid, piece_from_offset_lem, piece_offset_from_offset_lem,
}
use torrest_cpp.Bittorrent.Reader.Loops.{Reached, read_first-Post, read_rest-Post, wait_all-Post}
use torrest_cpp.Bittorrent.Reader.{
  Reader, read_size, read_first, wait_all, read_pieces, return_bytes, read, piece_from_offset,
}

abbrev pub until_of : Env → Reader → Option ℕ
until_of env r = if ltb 0 r.piece_wait_timeout then some (env.now + r.piece_wait_timeout) else none

-- The first and last piece of `n` bytes from `a` on.
span :
    (a n l : ℕ)
    → 0 < l
    → 0 < n
    → (a ≡ a / l * l + a % l)
      × (a % l < l)
      × (a + n ≤ ((a + n - 1) / l + 1) * l)
      × (a / l + 1 + ((a + n - 1) / l - a / l) ≡ (a + n - 1) / l + 1)
span a n l l_pos n_pos =
    let e = div-add-mod' a l in
    let f = div-add-mod' (a + n - 1) l in
    let lt = mod-lt a l_pos in
    let lt' = mod-lt (a + n - 1) l_pos in
    let ordered : a / l ≤ (a + n - 1) / l = div_mono a (a + n - 1) l l_pos (omega arith) in
    (sym e, lt, omega arith, omega arith)

module _ (total : Bytes) (r : Reader) (E : Option Exception → Type 0) (C : Pieces → Type 0) where
  -- The cache is as `C` says, and the position has not moved.
  abbrev pub Steady : ReadState → Type 0
  Steady s = C s.pieces × (s.position ≡ r.pos)

  -- How a read of `n` bytes may end.
  abbrev pub Reads : ℕ → Outcome Bytes × ReadState → Type 0
  Reads n (returned out, s) =
      (out ≡ slice (r.offset + r.pos) n total) × C s.pieces × (s.position ≡ r.pos + n)
  Reads n (raised e, s) = E (some e) × C s.pieces × (s.position ≡ r.pos)
  Reads n (blocked, s) = E none × C s.pieces × (s.position ≡ r.pos)

  -- The last step of the code.
  finish_Reads :
      (n : ℕ) (res : Outcome Bytes × ReadState)
      → r.offset + r.pos + n ≤ length total
      → Post (λ o. o ≡ slice (r.offset + r.pos) n total) E Steady res
      → Reads n (continue return_bytes res)
  unfolding return_bytes
  finish_Reads n (returned out, s) fit (e, c) =
      let len : length out ≡ n = ap length e ∙ length-slice (r.offset + r.pos) n total fit in
      (e, c.0, let p = c.1 in omega arith)
  finish_Reads n (raised x, s) fit k = (k.0, k.1.0, k.1.1)
  finish_Reads n (blocked, s) fit k = (k.0, k.1.0, k.1.1)

module _ (total : Bytes) (h : Handle) (env : Env) (r : Reader) (v : IsValid total r)
    (E : Option Exception → Type 0) (C : Pieces → Type 0)
    (fetched : (p : ℕ) (s : ReadState)
      → Steady total r E C s
      → Post
          (Holds (piece_bytes total r.piece_length) p)
          E
          (Steady total r E C)
          (fetch env (until_of env r) p s))
    (arrives : (p : ℕ) (s : ReadState)
      → Steady total r E C s
      → Post (λ _. Unit {0}) E (Steady total r E C) (wait env (until_of env r) p s)) where
  read_pieces-Post :
      (n : ℕ) (s : ReadState)
      → 0 < n
      → r.pos + n ≤ r.size
      → (Steady total r E C) s
      → Post
          (λ o. o ≡ slice (r.offset + r.pos) n total)
          E
          (Steady total r E C)
          (read_pieces h env r n s)
  unfolding read_pieces
  read_pieces-Post n s pos_n fit i =
      let within = v.within in
      let start_eq = piece_from_offset_lem v r.pos v.pos_within in
      let end_eq = piece_from_offset_lem v (r.pos + n - 1) (omega arith) in
      let off_eq = piece_offset_from_offset_lem v r.pos in
      let spans = span (r.offset + r.pos) n r.piece_length v.piece_length_pos pos_n in
      let end_at : r.offset + (r.pos + n - 1) ≡ r.offset + r.pos + n - 1 = omega arith in
      let end_eq' : piece_from_offset r (r.pos + n - 1)
          ≡ (r.offset + r.pos + n - 1) / r.piece_length =
        end_eq ∙ ap (λ x. x / r.piece_length) end_at in
      rw (start_eq, end_eq', off_eq)
        (Post->>= (λ _. Unit {0}) (λ o. o ≡ slice (r.offset + r.pos) n total) E (Steady total r E C)
          (wait_all env (until_of env r) _ _) _ _
          (wait_all-Post E (Steady total r E C) env (until_of env r) arrives _ _ _ i)
          λ _ t _ j.
            Post->>=
              (Reached total r.piece_length v.piece_length_pos (r.offset + r.pos) n (omega arith) _)
              (λ o. o ≡ slice (r.offset + r.pos) n total) E (Steady total r E C)
              (read_first env (until_of env r) _ _ n) _ t
              (read_first-Post total r.piece_length v.piece_length_pos (r.offset + r.pos) n
                (omega arith) E (Steady total r E C) env (until_of env r) fetched _ _ t spans.0
                spans.1 pos_n j)
              λ first u reached k.
                read_rest-Post total r.piece_length v.piece_length_pos (r.offset + r.pos) n
                  (omega arith) E (Steady total r E C) env (until_of env r) fetched _ _ _ first u
                  spans.2 spans.3 reached k)

  read-Reads :
      (requested : ℤ) (s : ReadState)
      → (Steady total r E C) s
      → Reads total r E C (read_size r requested) (read h env r requested s)
  unfolding read
  read-Reads requested s i =
      let within = v.within in
      let inside = v.pos_within in
      let fits : r.pos + read_size r requested ≤ r.size = omega arith in
      elim (Bool-cases (read_size r requested == 0)) [
        | inl e ↦
            let none_left : read_size r requested ≡ 0 = (==_iff _ 0).0 e in
            rw none_left (refl, i.0, let p = i.1 in omega arith)
        | inr e ↦ rw e (
            finish_Reads total r E C (read_size r requested)
              (read_pieces h env r (read_size r requested) s) (omega (arith, fits))
              (read_pieces-Post (read_size r requested) s (ground arith) fits i))
      ]

-- The alerts of the environment carry the bytes of their pieces.
pub record IsTruthful (content : ℕ → Bytes) (env : Env) : Type 0 where
  pub before : (p : ℕ) → AllTrue content (env.fetches p).before
  pub start : (p : ℕ) → AllTrue content (env.fetches p).start.events
  pub wakes : (p : ℕ) → WakesTrue content (env.fetches p).wakes

-- An exception of the code's own, and no access outside of a buffer.
abbrev pub IsOwn : Option Exception → Type 0
IsOwn none = Unit {0}
IsOwn (some e) = e ≢ out_of_bounds

module _ (content : ℕ → Bytes) (pos : ℕ) where
  abbrev pub Kept : ReadState → Type 0
  Kept s = IsFaithful content s.pieces × (s.position ≡ pos)

  read_of-Post :
      (p : ℕ) (cs : List HandleCall) (x : Reading) (s : ReadState)
      → Delivers content p x
      → s.position ≡ pos
      → Post (Holds content p) IsOwn Kept (read_of cs x s)
  unfolding read_of
  read_of-Post p cs (got d ps) s h e = (h.0, (h.1, e))
  read_of-Post p cs (threw x ps) s h e = (cc, (h, e))
  read_of-Post p cs (waiting ps) s h e = (tt, (h, e))

  fetch-Post :
      (env : Env) (until : Option ℕ) (p : ℕ) (s : ReadState)
      → IsTruthful content env
      → Kept s
      → Post (Holds content p) IsOwn Kept (fetch env until p s)
  unfolding fetch
  fetch-Post env until p s t i =
      let f = env.fetches p in
      read_of-Post p _ _ s
        (read_piece-Delivers content p until f.now (apply_events f.before s.pieces) f.start f.wakes
          (apply_events-IsFaithful content f.before s.pieces (t.before p) i.0) (t.start p)
          (t.wakes p))
        i.1

  waited-Post : (w : Waited) (s : ReadState) → Kept s → Post (λ _. Unit {0}) IsOwn Kept (waited w s)
  unfolding waited
  waited-Post arrived s i = (tt, i)
  waited-Post (failed e) s i = (cc, i)
  waited-Post polling s i = (tt, i)

-- If the reader is valid, and the cache and the alerts hold the true bytes of the torrent's pieces,
-- then a read that returns has written the bytes of the file from the position on, as many as were
-- asked for or are left, and has moved the position behind them. No read leaves a buffer's bounds, and
-- one that throws or still waits has not moved the position.
pub read_lem :
    (total : Bytes) (h : Handle) (env : Env) (r : Reader) (requested : ℤ) (s : ReadState)
    → IsValid total r
    → IsTruthful (piece_bytes total r.piece_length) env
    → IsFaithful (piece_bytes total r.piece_length) s.pieces
    → s.position ≡ r.pos
    → Reads total r IsOwn
        (IsFaithful (piece_bytes total r.piece_length))
        (read_size r requested)
        (read h env r requested s)
unfolding wait
read_lem total h env r requested s v t f e =
    let content = piece_bytes total r.piece_length in
    read-Reads total h env r v IsOwn (IsFaithful content)
      (λ p u i. fetch-Post content r.pos env (until_of env r) p u t i)
      (λ p u i. waited-Post content r.pos (wait_for_piece (until_of env r) (env.polls p)) u i)
      requested s (f, e)

-- Each piece arrives in time, and is stored in time: by the alert that was asked for, before the read of
-- the piece waits or while it does.
pub record IsSupplied (until : Option ℕ) (env : Env) : Type 0 where
  pub arrives : (p : ℕ) → wait_for_piece until (env.polls p) ≡ arrived
  pub stored :
      (p : ℕ)
      → StoredInTime p until
          (env.fetches p).start.events
          (env.fetches p).start.now
          (env.fetches p).wakes

abbrev pub NoFailure : Option Exception → Type 0
NoFailure _ = ⊥

returned_of_Reads :
    (total : Bytes) (r : Reader) (C : Pieces → Type 0) (n : ℕ) (x : Outcome Bytes × ReadState)
    → Reads total r NoFailure C n x
    → (t : ReadState) × (x ≡ (returned (slice (r.offset + r.pos) n total), t))
      × (t.position ≡ r.pos + n)
returned_of_Reads total r C n (returned out, t) h = (t, ap (λ o. (returned o, t)) h.0, h.2)
returned_of_Reads total r C n (raised e, t) h = absurd h.0
returned_of_Reads total r C n (blocked, t) h = absurd h.0

module _ (content : ℕ → Bytes) (pos : ℕ) where
  got_Post :
      (p : ℕ) (cs : List HandleCall) (x : Reading) (s : ReadState)
      → (d : PieceData) × (ps : Pieces) × (x ≡ got d ps)
      → Delivers content p x
      → s.position ≡ pos
      → Post (Holds content p) NoFailure (Kept content pos) (read_of cs x s)
  unfolding read_of
  got_Post p cs (got d ps) s g h e = (h.0, (h.1, e))
  got_Post p cs (threw x ps) s g h e = absurd (let k = g.2 in cc)
  got_Post p cs (waiting ps) s g h e = absurd (let k = g.2 in cc)

  supplied_Post :
      (env : Env) (until : Option ℕ) (p : ℕ) (s : ReadState)
      → IsTruthful content env
      → IsSupplied until env
      → Kept content pos s
      → Post (Holds content p) NoFailure (Kept content pos) (fetch env until p s)
  unfolding fetch
  supplied_Post env until p s t u i =
      let f = env.fetches p in
      got_Post p _ _ s
        (read_piece-stored p until f.now (apply_events f.before s.pieces) f.start f.wakes
          (u.stored p))
        (read_piece-Delivers content p until f.now (apply_events f.before s.pieces) f.start f.wakes
          (apply_events-IsFaithful content f.before s.pieces (t.before p) i.0) (t.start p)
          (t.wakes p))
        i.1

  arrived_Post :
      (w : Waited) (s : ReadState)
      → w ≡ arrived
      → Kept content pos s
      → Post (λ _. Unit {0}) NoFailure (Kept content pos) (waited w s)
  unfolding waited
  arrived_Post arrived s e i = (tt, i)
  arrived_Post (failed x) s e i = absurd (cc)
  arrived_Post polling s e i = absurd (cc)

-- If in addition every piece arrives in time, and the cache gets it in time, before the wait for it
-- begins or while it goes on, and it is not cleaned up before the next look, then the read does return
-- those bytes: it neither throws nor goes on waiting.
pub read_returns :
    (total : Bytes) (h : Handle) (env : Env) (r : Reader) (requested : ℤ) (s : ReadState)
    → IsValid total r
    → IsTruthful (piece_bytes total r.piece_length) env
    → IsFaithful (piece_bytes total r.piece_length) s.pieces
    → IsSupplied (until_of env r) env
    → s.position ≡ r.pos
    → (t : ReadState) × (read h env r requested s
        ≡ (returned (slice (r.offset + r.pos) (read_size r requested) total), t))
      × (t.position ≡ r.pos + read_size r requested)
unfolding wait
read_returns total h env r requested s v t f u e =
    let content = piece_bytes total r.piece_length in
    returned_of_Reads total r (IsFaithful content) _ (read h env r requested s) (
      read-Reads total h env r v NoFailure (IsFaithful content)
        (λ p w i. supplied_Post content r.pos env (until_of env r) p w t u i)
        (λ p w i.
          arrived_Post content r.pos (wait_for_piece (until_of env r) (env.polls p)) w (u.arrives p)
            i)
        requested s (f, e))
