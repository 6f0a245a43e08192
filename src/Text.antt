-- ===== src/Text.antt =====
-- Text helpers: src/utils/utils.cpp and the inline ones of src/utils/utils.h. A `std::string` is
-- the list of its bytes; the exception carries no data, as its message is fixed.
pub mod Unescape
pub mod Sanitize
pub mod Join
mod Tests
use torrest_cpp.Prelude.{
  ℕ, ◌+◌, ◌-◌, ◌*◌, Bool, true, false, ◌&&◌, ◌||◌, List, [], ◌∷◌, ◌++◌, Option, none, some, ltb,
  leb, ◌==◌, if◌then◌else◌, Bytes, is_empty, length, replicate, Result, ok, err,
}

-- `throw std::runtime_error("Invalid escaped string")`
pub data InvalidEscape : Type 0 where
  invalid_escaped_string : InvalidEscape

-- The `if ... else if` chain over one hexadecimal digit, `none` where it throws.
unfoldable pub hex_digit : ℕ → Option ℕ
hex_digit c =
    if leb b'0' c && leb c b'9'
    then some (c - b'0')
    else if leb b'A' c && leb c b'F'
    then some (c + 10 - b'A')
    else if leb b'a' c && leb c b'f'
    then some (c + 10 - b'a')
    else none

-- The tail of a `%` branch: both digits are read before the next round of the loop.
abbrev escaped : Option ℕ → Option ℕ → Result InvalidEscape Bytes → Result InvalidEscape Bytes
escaped (some high) (some low) (ok ret) = ok ((high * 16 + low) ∷ ret)
escaped (some high) (some low) (err e) = err e
escaped _ _ _ = err invalid_escaped_string

abbrev keep : ℕ → Result InvalidEscape Bytes → Result InvalidEscape Bytes
keep c (ok ret) = ok (c ∷ ret)
keep c (err e) = err e

-- The `if ... else if ... else` of one round, by what follows the byte and what a `%` does.
abbrev round :
    ℕ → Result InvalidEscape Bytes → Result InvalidEscape Bytes → Result InvalidEscape Bytes
round c next percent =
    if c == b'+' then keep b' ' next else if c == b'%' then percent else keep c next

unfoldable pub unescape_string : Bytes → Result InvalidEscape Bytes
unfolding hex_digit
unescape_string [] = ok []
unescape_string (c ∷ []) = round c (ok []) (err invalid_escaped_string)
unescape_string (c ∷ h ∷ []) =
    let next = unescape_string (h ∷ []) in round c next (err invalid_escaped_string)
unescape_string (c ∷ h ∷ l ∷ s) =
    let next = unescape_string (h ∷ l ∷ s) in
    let after = unescape_string s in
    let percent = escaped (hex_digit h) (hex_digit l) after in round c next percent

-- `pIp.find_first_of(":.", prev)` stops at these.
abbrev pub is_separator : ℕ → Bool
is_separator c = c == b':' || c == b'.'

-- One group of the address, kept or masked; an empty one adds nothing.
group : ℕ → ℕ → Bytes → Bytes
group leading_groups count cur =
    if is_empty cur
    then []
    else if ltb count leading_groups
    then cur
    else replicate (length cur) b'X'

-- The loop of `sanitize_ip_address`: `cur` is `pIp.substr(prev, pos - prev)` so far. The first clause
-- is the code after the loop.
sanitize_from : ℕ → ℕ → Bytes → Bytes → Bytes
unfolding group
sanitize_from leading_groups count cur [] = group leading_groups count cur
sanitize_from leading_groups count cur (c ∷ s) =
    let closed = sanitize_from leading_groups (if is_empty cur then count else count + 1) [] s in
    let longer = sanitize_from leading_groups count (cur ++ c ∷ []) s in
    if is_separator c then group leading_groups count cur ++ c ∷ closed else longer

unfoldable pub sanitize_ip_address : Bytes → ℕ → Bytes
unfolding sanitize_from
sanitize_ip_address ip leading_groups = sanitize_from leading_groups 0 [] ip

-- The inner `while` of `join_string_vector`.
join_rest : Bytes → List Bytes → Bytes
join_rest delimiter [] = []
join_rest delimiter (x ∷ xs) = delimiter ++ (x ++ join_rest delimiter xs)

unfoldable pub join_string_vector : List Bytes → Bytes → Bytes
unfolding join_rest
join_string_vector [] delimiter = []
join_string_vector (x ∷ xs) delimiter = x ++ join_rest delimiter xs

-- `while (ss.good()) { std::getline(ss, item, delimiter); ... }`: the items of a text, of which an
-- empty text has one.
split_from : ℕ → Bytes → Bytes → List Bytes
split_from delimiter item [] = item ∷ []
split_from delimiter item (c ∷ s) =
    let next = split_from delimiter [] s in
    let longer = split_from delimiter (item ++ c ∷ []) s in
    if c == delimiter then item ∷ next else longer

unfoldable pub split : ℕ → Bytes → List Bytes
unfolding split_from
split delimiter s = split_from delimiter [] s

unfoldable pub contains_byte : Bytes → ℕ → Bool
contains_byte [] c = false
contains_byte (x ∷ xs) c = c == x || contains_byte xs c

-- `pStr.erase(0, pStr.find_first_not_of(pChars))`
unfoldable pub ltrim : Bytes → Bytes → Bytes
unfolding contains_byte
ltrim [] chars = []
ltrim (c ∷ s) chars = if contains_byte chars c then ltrim s chars else c ∷ s

-- `pStr.rfind(pStart, 0) == 0`
unfoldable pub starts_with : Bytes → Bytes → Bool
starts_with s [] = true
starts_with [] (c ∷ start) = false
starts_with (a ∷ s) (c ∷ start) = a == c && starts_with s start
