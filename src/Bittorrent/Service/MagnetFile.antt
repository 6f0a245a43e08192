-- ===== src/Bittorrent/Service/MagnetFile.antt =====
-- The file of a magnet link: `Magnet` of src/bittorrent/service.cpp, on a machine whose sizes are
-- little-endian words of 64 bits.
use torrest_cpp.Prelude.{
  ℕ, zero, suc, ◌+◌, ◌-◌, ◌*◌, ◌/◌, ◌%◌, ◌^◌, ◌<◌, ◌≡◌, refl, ap, Bool, true, false, not, Option,
  none, some, [], ◌∷◌, ◌++◌, append-nil, arith, ltb, ◌==◌, if◌then◌else◌, ltb-false, length,
  length-append, take, drop, replicate, take-append, drop-append, Bytes,
}

pub record Magnet : Type 0 where
  pub magnet : Bytes
  pub download : Bool

-- The low `w` bytes of a number, the lowest first.
unfoldable pub to_bytes : ℕ → ℕ → Bytes
to_bytes zero n = []
to_bytes (suc w) n = n % 256 ∷ to_bytes w (n / 256)

unfoldable pub of_bytes : Bytes → ℕ
of_bytes [] = 0
of_bytes (b ∷ s) = b + 256 * of_bytes s

of_bool : Bool → ℕ
of_bool true = 1
of_bool false = 0

-- `operator<<`
unfoldable pub encode_magnet : Magnet → Bytes
unfolding of_bool
encode_magnet m = to_bytes 8 (length m.magnet) ++ (m.magnet ++ of_bool m.download ∷ [])

-- `is.read(&pMagnet.download, 1)`, which leaves it `false` at the end of the file.
flag : Bytes → Bool
flag [] = false
flag (b ∷ s) = not (b == 0)

-- `int(size)`, an `int` of 32 bits: `none` where that is negative.
int_count : ℕ → Option ℕ
int_count size = let low : ℕ = size % 2 ^ 32 in if ltb low (2 ^ 31) then some low else none

-- The link of `size` bytes, zeros but for those that are read. A read of a negative count gets nothing
-- and makes the next one fail, as the end of the file does.
read_magnet : ℕ → Option ℕ → Bytes → Magnet
unfolding flag
read_magnet size none rest = record { magnet = replicate size 0; download = false }
read_magnet size (some n) rest = record {
  magnet = take n rest ++ replicate (size - length (take n rest)) 0;
  download = flag (drop n rest);
}

-- `operator>>`, where the memory suffices for the link: a `resize` that throws is not
-- modelled, after which the file is passed over. `none` where the size is missing.
unfoldable pub decode_magnet : Bytes → Option Magnet
unfolding int_count read_magnet
decode_magnet s =
    let size : ℕ = of_bytes (take 8 s) in
    if ltb (length s) 8 then none else some (read_magnet size (int_count size) (drop 8 s))

of_bytes-to_bytes : (w n : ℕ) → n < 256 ^ w → of_bytes (to_bytes w n) ≡ n
unfolding to_bytes of_bytes
of_bytes-to_bytes zero n lt = omega arith
of_bytes-to_bytes (suc w) n lt =
    let below : n / 256 < 256 ^ w = omega arith in
    let rest = of_bytes-to_bytes w (n / 256) below in omega arith

length-to_bytes : (w n : ℕ) → length (to_bytes w n) ≡ w
unfolding to_bytes
length-to_bytes zero n = refl
length-to_bytes (suc w) n = ap suc (length-to_bytes w (n / 256))

flag-of_bool : (b : Bool) → flag (of_bool b ∷ []) ≡ b
unfolding flag of_bool
flag-of_bool true = refl
flag-of_bool false = refl

-- A magnet that is written to its file is read back, if its link has fewer than 2 ^ 31 bytes.
pub decode_magnet-encode_magnet :
    (m : Magnet) → length m.magnet < 2 ^ 31 → decode_magnet (encode_magnet m) ≡ some m
unfolding decode_magnet encode_magnet int_count read_magnet
decode_magnet-encode_magnet m lt =
    let n = length m.magnet in
    let body = m.magnet ++ of_bool m.download ∷ [] in
    let head_length = length-to_bytes 8 n in
    let size = of_bytes-to_bytes 8 n (omega arith) in
    let all_length = length-append (to_bytes 8 n) body in
    let low : n % 2 ^ 32 ≡ n = omega arith in
    let small : ltb n (2 ^ 31) ≡ true = ground (arith, lt) in
    let none_left : n - n ≡ 0 = omega arith in
    rw
      (
        take-append (to_bytes 8 n) body 8 head_length,
        drop-append (to_bytes 8 n) body 8 head_length,
        size,
      )
      (rw
        (
          ltb-false (length (encode_magnet m)) 8 (omega arith),
          low,
          small,
          take-append m.magnet (of_bool m.download ∷ []) n refl,
          drop-append m.magnet (of_bool m.download ∷ []) n refl,
          none_left,
          flag-of_bool m.download,
        )
        (λ i. some (record { magnet = append-nil m.magnet i; download = m.download })))
