-- ===== src/Bittorrent/Interfaces.antt =====
-- The interfaces that the session listens on: the part of `configure` in src/bittorrent/service.cpp that
-- makes the setting, with `ip_interface` of src/utils/ifaces.h. The addresses of the machine are a
-- parameter.
pub mod Ports
pub mod Joined
mod Tests
use torrest_cpp.Prelude.{
  ℕ, zero, suc, ◌+◌, ◌-◌, ◌/◌, ◌%◌, Bool, true, not, ◌&&◌, ◌||◌, Option, none, some, List, [], ◌∷◌,
  ◌++◌, ltb, leb, ◌==◌, if◌then◌else◌, length, take, drop, Bytes, bytes, is_empty, bytes_eq,
}
use torrest_cpp.Text.{join_string_vector, split, starts_with}

pub record IpInterface : Type 0 where
  pub name : Bytes
  pub address : Bytes
  pub is_v4 : Bool

pub is_digit : ℕ → Bool
is_digit c = leb b'0' c && leb c b'9'

pub are_digits : Bytes → Bool
unfolding is_digit
are_digits [] = true
are_digits (c ∷ s) = is_digit c && are_digits s

-- A search for `mPortRegex`, ":\\d+$": what it matches.
pub find_port : Bytes → Option Bytes
unfolding are_digits
find_port [] = none
find_port (c ∷ s) =
    let rest = find_port s in
    if c == b':' && (not (is_empty s) && are_digits s) then some (c ∷ s) else rest

pub is_space : ℕ → Bool
is_space c = c == 32 || leb 9 c && leb c 13

-- `std::regex_replace(..., mWhiteSpaceRegex, "")`
pub remove_spaces : Bytes → Bytes
unfolding is_space
remove_spaces [] = []
remove_spaces (c ∷ s) = let rest = remove_spaces s in if is_space c then rest else c ∷ rest

-- `std::to_string`; the digits left are at most as many as the number is large.
pub decimal : ℕ → ℕ → Bytes → Bytes
decimal zero n digits = digits
decimal (suc rounds) n digits =
    let longer = decimal rounds (n / 10) ((48 + n % 10) ∷ digits) in
    if ltb n 10 then (48 + n % 10) ∷ digits else longer

pub listen_port : ℕ → Bytes
unfolding decimal
listen_port port = b':' ∷ decimal (suc port) port []

-- The loop over `ifAddresses`.
pub addresses_of : Bytes → Bytes → List IpInterface → List Bytes
addresses_of name port [] = []
addresses_of name port (i ∷ is) =
    let rest = addresses_of name port is in
    if bytes_eq i.name name
    then (if i.is_v4 then i.address ++ port else b'[' ∷ (i.address ++ (b']' ∷ port))) ∷ rest
    else rest

-- `ifName` and `ifPort`.
pub name_and_port : Bytes → Bytes → Bytes × Bytes
unfolding find_port
name_and_port port item = elim (find_port item) [
  | some p ↦ (take (length item - length p) item, p)
  | none ↦ (item, port)
]

-- The loop over the names behind "auto:".
pub auto_interfaces : Bytes → List IpInterface → List Bytes → List Bytes
unfolding addresses_of name_and_port
auto_interfaces port is [] = []
auto_interfaces port is (item ∷ items) =
    let (name, p) = name_and_port port item in
    let rest = auto_interfaces port is items in
    if is_empty name then rest else addresses_of name p is ++ rest

-- The loop over the interfaces that are given.
pub given_interfaces : Bytes → List Bytes → List Bytes
unfolding find_port
given_interfaces port [] = []
given_interfaces port (item ∷ items) =
    (elim (find_port item) [ some p ↦ item | none ↦ item ++ port ]) ∷ given_interfaces port items

pub listen_interfaces : Bytes → ℕ → List IpInterface → List Bytes
unfolding remove_spaces auto_interfaces given_interfaces listen_port
listen_interfaces setting port is =
    let config = remove_spaces setting in
    if is_empty config
    then (bytes "0.0.0.0" ++ listen_port port) ∷ (bytes "[::]" ++ listen_port port) ∷ []
    else if starts_with config (bytes "auto:")
    then auto_interfaces (listen_port port) is (split b',' (drop 5 config))
    else given_interfaces (listen_port port) (split b',' config)

-- `listenInterfacesStr`
pub listen_interfaces_str : Bytes → ℕ → List IpInterface → Bytes
unfolding listen_interfaces
listen_interfaces_str setting port is =
    join_string_vector (listen_interfaces setting port is) (bytes ",")
