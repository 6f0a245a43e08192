-- ===== src/Bittorrent/Interfaces/Ports.antt =====
-- Each interface has a port, and the session reads back what was joined.
use torrest_cpp.Prelude.{
  ℕ, zero, suc, ◌+◌, ◌/◌, ◌%◌, ◌≡◌, refl, sym, ap, subst, inl, inr, true, false, ◌&&◌, none, some,
  List, [], ◌∷◌, ◌++◌, append_assoc, arith, ltb, ◌==◌, if◌then◌else◌, Bool-cases, Option-cases,
  Bytes, is_empty, bytes_eq,
}
use torrest_cpp.Bittorrent.Interfaces.{
  IpInterface, is_digit, are_digits, find_port, decimal, listen_port, addresses_of, name_and_port,
  auto_interfaces, given_interfaces,
}

-- A colon and at least one digit.
abbrev pub IsPort : Bytes → Type 0
IsPort p = (d : ℕ) × (q : Bytes) × (p ≡ b':' ∷ d ∷ q) × (are_digits (d ∷ q) ≡ true)

abbrev pub HasPort : Bytes → Type 0
HasPort s = (a : Bytes) × (p : Bytes) × (s ≡ a ++ p) × IsPort p

abbrev pub AllHavePort : List Bytes → Type 0
AllHavePort [] = Unit
AllHavePort (s ∷ ss) = HasPort s × AllHavePort ss

find_port-HasPort : (s p : Bytes) → find_port s ≡ some p → IsPort p × HasPort s
unfolding find_port
find_port-HasPort [] p e = absurd (cc)
find_port-HasPort (c ∷ []) p e =
    absurd
      (let k : (if c == b':' && false then some (c ∷ []) else none) ≡ some p = e in ground arith)
find_port-HasPort (c ∷ d ∷ s) p e = elim (Bool-cases (c == b':' && are_digits (d ∷ s))) [
  | inl y ↦
      let colon : c ≡ b':' = ground arith in
      let digits : are_digits (d ∷ s) ≡ true = ground arith in
      let same : c ∷ d ∷ s ≡ p = let k = rw y at e in cc in
      let port : IsPort (c ∷ d ∷ s) = (d, s, ap (λ x. x ∷ d ∷ s) colon, digits) in
      (subst IsPort same port, ([], c ∷ d ∷ s, refl, port))
  | inr n ↦
      let (port, (a, q, split_at, is)) = find_port-HasPort (d ∷ s) p (rw n at e) in
      (port, (c ∷ a, q, ap (λ x. c ∷ x) split_at, is))
]

digit_of : (n : ℕ) → is_digit (48 + n % 10) ≡ true
unfolding is_digit
digit_of n = ground arith

decimal_digits :
    (rounds n d : ℕ) (digits : Bytes)
    → are_digits (d ∷ digits) ≡ true
    → (e : ℕ) × (q : Bytes) × (decimal rounds n (d ∷ digits) ≡ e ∷ q) × (are_digits (e ∷ q) ≡ true)
unfolding decimal are_digits
decimal_digits zero n d digits all = (d, digits, refl, all)
decimal_digits (suc rounds) n d digits all =
    let more : are_digits ((48 + n % 10) ∷ d ∷ digits) ≡ true = rw (digit_of n) all in
    elim (Bool-cases (ltb n 10)) [
      | inl y ↦ (48 + n % 10, d ∷ digits, rw y refl, more)
      | inr k ↦ rw k (decimal_digits rounds (n / 10) (48 + n % 10) (d ∷ digits) more)
    ]

pub listen_port-IsPort : (port : ℕ) → IsPort (listen_port port)
unfolding listen_port decimal are_digits
listen_port-IsPort port =
    let one : are_digits ((48 + port % 10) ∷ []) ≡ true = rw (digit_of port) refl in
    elim (Bool-cases (ltb port 10)) [
      | inl y ↦ (48 + port % 10, [], rw y refl, one)
      | inr k ↦
          let (e, q, is, all) = decimal_digits port (port / 10) (48 + port % 10) [] one in
          (e, q, rw (k, is) refl, all)
    ]

pub append-HasPort : (a p : Bytes) → IsPort p → HasPort (a ++ p)
append-HasPort a p is = (a, p, refl, is)

all_append : (xs ys : List Bytes) → AllHavePort xs → AllHavePort ys → AllHavePort (xs ++ ys)
all_append [] ys ax ay = ay
all_append (x ∷ xs) ys ax ay = (ax.0, all_append xs ys ax.1 ay)

address_HasPort :
    (i : IpInterface) (p : Bytes)
    → IsPort p
    → HasPort (if i.is_v4 then i.address ++ p else b'[' ∷ (i.address ++ (b']' ∷ p)))
address_HasPort i p is = elim (Bool-cases i.is_v4) [
  | inl e ↦ rw e (append-HasPort i.address p is)
  | inr e ↦ rw e (
    b'[' ∷ (i.address ++ b']' ∷ []),
    p,
    ap (λ x. b'[' ∷ x) (sym (append_assoc i.address (b']' ∷ []) p)),
    is,
  )
]

addresses_of-AllHavePort :
    (name p : Bytes) (is : List IpInterface) → IsPort p → AllHavePort (addresses_of name p is)
unfolding addresses_of
addresses_of-AllHavePort name p [] port = tt
addresses_of-AllHavePort name p (i ∷ is) port =
    let rest = addresses_of-AllHavePort name p is port in
    elim (Bool-cases (bytes_eq i.name name)) [
      | inl e ↦ rw e (address_HasPort i p port, rest)
      | inr e ↦ rw e rest
    ]

name_and_port-IsPort : (p item : Bytes) → IsPort p → IsPort (name_and_port p item).1
unfolding name_and_port
name_and_port-IsPort p item port = elim (Option-cases (find_port item)) [
  | inl e ↦ rw (e, name_and_port) port
  | inr (q, e) ↦ rw (e, name_and_port) (find_port-HasPort item q e).0
]

pub auto_interfaces-AllHavePort :
    (p : Bytes) (is : List IpInterface) (items : List Bytes)
    → IsPort p
    → AllHavePort (auto_interfaces p is items)
unfolding auto_interfaces
auto_interfaces-AllHavePort p is [] port = tt
auto_interfaces-AllHavePort p is (item ∷ items) port =
    let rest = auto_interfaces-AllHavePort p is items port in
    let (name, q) = name_and_port p item in
    elim (Bool-cases (is_empty (name_and_port p item).0)) [
      | inl e ↦ rw e rest
      | inr e ↦ rw e (
          all_append _ _
            (addresses_of-AllHavePort (name_and_port p item).0 (name_and_port p item).1 is
              (name_and_port-IsPort p item port))
            rest)
    ]

pub given_interfaces-AllHavePort :
    (p : Bytes) (items : List Bytes) → IsPort p → AllHavePort (given_interfaces p items)
unfolding given_interfaces
given_interfaces-AllHavePort p [] port = tt
given_interfaces-AllHavePort p (item ∷ items) port =
    let rest = given_interfaces-AllHavePort p items port in
    elim (Option-cases (find_port item)) [
      | inl e ↦ rw e (append-HasPort item p port, rest)
      | inr (q, e) ↦ rw e ((find_port-HasPort item q e).1, rest)
    ]
