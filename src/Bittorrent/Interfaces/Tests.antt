-- ===== src/Bittorrent/Interfaces/Tests.antt =====
-- Interfaces that are given, and the ones of a machine.
use torrest_cpp.Prelude.{◌≡◌, refl, ◌⊎◌, true, false, [], ◌∷◌, bytes}
use torrest_cpp.Text.{split, starts_with}
use torrest_cpp.Bittorrent.Interfaces.{
  IpInterface, remove_spaces, auto_interfaces, listen_interfaces, listen_interfaces_str,
}
use torrest_cpp.Bittorrent.Interfaces.Ports.{AllHavePort}
use torrest_cpp.Bittorrent.Interfaces.Joined.{listen_interfaces_lem}

abbrev lo : IpInterface
lo = record { name = bytes "lo"; address = bytes "::1"; is_v4 = false }

auto_runs :
    auto_interfaces (bytes ":80") (lo ∷ []) (bytes "lo:90" ∷ bytes "" ∷ bytes "lo" ∷ [])
    ≡ bytes "[::1]:90" ∷ bytes "[::1]:80" ∷ []
unfolding auto_interfaces
auto_runs = refl

listen_interfaces_lem_example :
    AllHavePort (listen_interfaces (bytes "1.2.3.4, 5.6.7.8:90") 80 (lo ∷ []))
    × ((starts_with (remove_spaces (bytes "1.2.3.4, 5.6.7.8:90")) (bytes "auto:") ≡ true)
        ⊎ (split b',' (listen_interfaces_str (bytes "1.2.3.4, 5.6.7.8:90") 80 (lo ∷ []))
            ≡ listen_interfaces (bytes "1.2.3.4, 5.6.7.8:90") 80 (lo ∷ [])))
listen_interfaces_lem_example = listen_interfaces_lem (bytes "1.2.3.4, 5.6.7.8:90") 80 (lo ∷ [])
