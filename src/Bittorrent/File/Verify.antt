-- ===== src/Bittorrent/File/Verify.antt =====
-- When a file stops buffering.
use torrest_cpp.Prelude.{◌≡◌, refl, ◌↔◌, inl, inr, Bool, true, false, some, arith, Bool-cases}
use torrest_cpp.Prelude.Int.{ℤ, pos, negsuc}
use torrest_cpp.Prelude.{ok}
use torrest_cpp.Bittorrent.Handle.{Handle}
use torrest_cpp.Bittorrent.Missing.{get_bytes_missing}
use torrest_cpp.Bittorrent.Missing.Laws.{IsConsistent, AllReceived, get_bytes_missing_lem}
use torrest_cpp.Bittorrent.File.{File, settle, is_zero, verify_buffering_state}

is_zero_iff : (z : ℤ) → (is_zero z ≡ true) ↔ (z ≡ pos 0)
is_zero_iff (pos n) = ground arith
is_zero_iff (negsuc n) = ground arith

-- How a check of the buffering state ends.
pub record IsVerified (h : Handle) (f g : File) (still : Bool) : Type 0 where
  pub agrees : g.is_buffering ≡ still
  pub still_iff : (still ≡ true) ↔ ((f.is_buffering ≡ true) × (¬ AllReceived h f.buffer_pieces))
  pub same_pieces : g.buffer_pieces ≡ f.buffer_pieces
  pub same_size : g.buffer_size ≡ f.buffer_size

settle-IsVerified :
    (h : Handle) (f : File) (b : Bool)
    → f.is_buffering ≡ true
    → (b ≡ true) ↔ AllReceived h f.buffer_pieces
    → IsVerified h f (settle f b).0 (settle f b).1
unfolding settle
settle-IsVerified h f true e iff = record {
  agrees = refl;
  still_iff = ((λ x. absurd (cc)), λ k. absurd (k.1 (iff.0 refl)));
  same_pieces = refl;
  same_size = refl;
}
settle-IsVerified h f false e iff = record {
  agrees = e;
  still_iff = ((λ _. (e, λ all. absurd (let k = iff.1 all in cc))), λ _. refl);
  same_pieces = refl;
  same_size = refl;
}

-- On a live torrent with a consistent download queue the check says that the file is still buffering
-- exactly when it was buffering and some buffered piece neither is there nor has come in full, where a
-- piece that is listed again has to be there; the file's own flag says the same after it, and the
-- buffered pieces stay.
pub verify_buffering_state-IsVerified :
    (h : Handle) (f : File)
    → IsConsistent h
    → (g : File) × (still : Bool) × (verify_buffering_state (some h) f ≡ ok (g, still))
      × IsVerified h f g still
unfolding verify_buffering_state
verify_buffering_state-IsVerified h f c = elim (Bool-cases f.is_buffering) [
  | inl on ↦
      let b = is_zero (get_bytes_missing h f.buffer_pieces) in
      let zero_iff = is_zero_iff (get_bytes_missing h f.buffer_pieces) in
      let all_iff = (get_bytes_missing_lem h f.buffer_pieces c).1 in
      (
        (settle f b).0,
        (settle f b).1,
        simp on refl,
        settle-IsVerified h f b on ((λ e. all_iff.0 (zero_iff.0 e)), λ a. zero_iff.1 (all_iff.1 a)),
      )
  | inr off ↦ (
    f,
    false,
    simp off refl,
    record {
      agrees = off;
      still_iff = ((λ x. absurd (cc)), λ k. absurd (let e = k.0 in cc));
      same_pieces = refl;
      same_size = refl;
    },
  )
]
