-- ===== src/Bittorrent/Interfaces/Joined.antt =====
-- The setting that the session reads.
use torrest_cpp.Prelude.{
  ℕ, ◌≡◌, refl, sym, subst, ◌⊎◌, inl, inr, Bool, true, not, ◌&&◌, List, [], ◌∷◌, ◌++◌, arith, ◌==◌,
  Bool-cases, Option-cases, drop, Bytes, bytes, is_empty,
}
use torrest_cpp.Text.{join_string_vector, split, starts_with}
use torrest_cpp.Text.Join.{
  Lacks, AllLack, Lacks-append, split-AllLack, split-cons, split-join_string_vector,
}
use torrest_cpp.Bittorrent.Interfaces.{
  IpInterface, is_digit, are_digits, find_port, remove_spaces, listen_port, given_interfaces,
  listen_interfaces, listen_interfaces_str,
}
use torrest_cpp.Bittorrent.Interfaces.Ports.{
  IsPort, AllHavePort, listen_port-IsPort, append-HasPort, auto_interfaces-AllHavePort,
  given_interfaces-AllHavePort,
}

digits_lack : (q : Bytes) → are_digits q ≡ true → Lacks b',' q
unfolding are_digits is_digit
digits_lack [] e = tt
digits_lack (c ∷ q) e = ((λ same. ground arith), digits_lack q (ground arith))

port-Lacks : (p : Bytes) → IsPort p → Lacks b',' p
port-Lacks p (d, q, is, digits) =
    subst (Lacks b',') (sym is) ((λ same. absurd (omega arith)), digits_lack (d ∷ q) digits)

given_lack :
    (p : Bytes) (items : List Bytes)
    → Lacks b',' p
    → AllLack b',' items
    → AllLack b',' (given_interfaces p items)
unfolding given_interfaces
given_lack p [] lp all = tt
given_lack p (item ∷ items) lp all =
    let rest = given_lack p items lp all.1 in
    elim (Option-cases (find_port item)) [
      | inl e ↦ rw e (Lacks-append b',' item p all.0 lp, rest)
      | inr (q, e) ↦ rw e (all.0, rest)
    ]

joined_again :
    (xs : List Bytes) (x : Bytes) (ys : List Bytes)
    → xs ≡ x ∷ ys
    → AllLack b',' xs
    → split b',' (join_string_vector xs (bytes ",")) ≡ xs
joined_again xs x ys e all =
    subst (λ l. split b',' (join_string_vector l (bytes ",")) ≡ l) (sym e)
      (split-join_string_vector b',' x ys (subst (AllLack b',') e all))

given_cons :
    (p : Bytes) (items : List Bytes) (x : Bytes) (xs : List Bytes)
    → items ≡ x ∷ xs
    → (y : Bytes) × (ys : List Bytes) × (given_interfaces p items ≡ y ∷ ys)
unfolding given_interfaces
given_cons p [] x xs e = absurd (cc)
given_cons p (item ∷ items) x xs e = (_, given_interfaces p items, refl)

given_again :
    (p config : Bytes)
    → IsPort p
    → split b',' (join_string_vector (given_interfaces p (split b',' config)) (bytes ","))
      ≡ given_interfaces p (split b',' config)
given_again p config port =
    let (x, xs, e) = split-cons b',' config in
    let (y, ys, f) = given_cons p (split b',' config) x xs e in
    joined_again (given_interfaces p (split b',' config)) y ys f
      (given_lack p (split b',' config) (port-Lacks p port) (split-AllLack b',' config))

abbrev has_no_comma : Bytes → Bool
has_no_comma [] = true
has_no_comma (c ∷ s) = not (c == b',') && has_no_comma s

Lacks-comma : (s : Bytes) → has_no_comma s ≡ true → Lacks b',' s
Lacks-comma [] e = tt
Lacks-comma (c ∷ s) e = ((λ same. ground arith), Lacks-comma s (ground arith))

both_again :
    (p : Bytes)
    → IsPort p
    → split b','
        (join_string_vector ((bytes "0.0.0.0" ++ p) ∷ (bytes "[::]" ++ p) ∷ []) (bytes ","))
      ≡ (bytes "0.0.0.0" ++ p) ∷ (bytes "[::]" ++ p) ∷ []
both_again p port =
    let lp = port-Lacks p port in
    split-join_string_vector b',' (bytes "0.0.0.0" ++ p) ((bytes "[::]" ++ p) ∷ []) (
      Lacks-append b',' (bytes "0.0.0.0") p (Lacks-comma (bytes "0.0.0.0") refl) lp,
      (Lacks-append b',' (bytes "[::]") p (Lacks-comma (bytes "[::]") refl) lp, tt),
    )

-- Each interface that the session is told to listen on ends with a port, whatever the setting says; and
-- if it is not for the interfaces of the machine, the session splits it into just these interfaces again.
pub listen_interfaces_lem :
    (setting : Bytes) (port : ℕ) (is : List IpInterface)
    → AllHavePort (listen_interfaces setting port is)
      × ((starts_with (remove_spaces setting) (bytes "auto:") ≡ true)
          ⊎ (split b',' (listen_interfaces_str setting port is)
              ≡ listen_interfaces setting port is))
unfolding listen_interfaces listen_interfaces_str
listen_interfaces_lem setting port is =
    let p = listen_port-IsPort port in
    let config = remove_spaces setting in
    elim (Bool-cases (is_empty config)) [
      | inl e ↦ rw e (
        (
          append-HasPort (bytes "0.0.0.0") (listen_port port) p,
          (append-HasPort (bytes "[::]") (listen_port port) p, tt),
        ),
        inr (both_again (listen_port port) p),
      )
      | inr e ↦ elim (Bool-cases (starts_with config (bytes "auto:"))) [
        | inl a ↦
            rw (e, a)
              (
                auto_interfaces-AllHavePort (listen_port port) is (split b',' (drop 5 config)) p,
                inl refl,
              )
        | inr a ↦
            rw (e, a)
              (
                given_interfaces-AllHavePort (listen_port port) (split b',' config) p,
                inr (given_again (listen_port port) config p),
              )
      ]
    ]
