-- ===== src/Network/Addresses/Ranges.antt =====
-- src/server/network/addresses.ts, the tables of the ranges that are not public.
use chatwca.Prelude.{List, [], ℕ, ◌∷◌}
use chatwca.Prelude.Text.{Text, codes}

pub data Category : Type 0 where
  public unspecified private loopback link_local carrier_grade_nat documentation benchmark multicast
        reserved :
      Category

pub record AddressRange : Type 0 where
  pub prefix : Text
  pub prefix_length : ℕ
  pub category : Category

abbrev range : Text → ℕ → Category → AddressRange
range prefix n category = record { prefix = prefix; prefix_length = n; category = category }

unfoldable pub ipv4_non_public_ranges : List AddressRange
ipv4_non_public_ranges =
    range (codes "0.0.0.0") 8 unspecified
    ∷ range (codes "10.0.0.0") 8 private
    ∷ range (codes "100.64.0.0") 10 carrier_grade_nat
    ∷ range (codes "127.0.0.0") 8 loopback
    ∷ range (codes "169.254.0.0") 16 link_local
    ∷ range (codes "172.16.0.0") 12 private
    ∷ range (codes "192.0.0.0") 24 reserved
    ∷ range (codes "192.0.2.0") 24 documentation
    ∷ range (codes "192.88.99.0") 24 reserved
    ∷ range (codes "192.168.0.0") 16 private
    ∷ range (codes "198.18.0.0") 15 benchmark
    ∷ range (codes "198.51.100.0") 24 documentation
    ∷ range (codes "203.0.113.0") 24 documentation
    ∷ range (codes "224.0.0.0") 4 multicast
    ∷ range (codes "240.0.0.0") 4 reserved
    ∷ []

unfoldable pub ipv6_non_public_ranges : List AddressRange
ipv6_non_public_ranges =
    range (codes "::") 96 reserved
    ∷ range (codes "64:ff9b::") 96 reserved
    ∷ range (codes "64:ff9b:1::") 48 reserved
    ∷ range (codes "100::") 64 reserved
    ∷ range (codes "2001:2::") 48 benchmark
    ∷ range (codes "2001:10::") 28 reserved
    ∷ range (codes "2001:20::") 28 reserved
    ∷ range (codes "2001::") 23 reserved
    ∷ range (codes "2001:db8::") 32 documentation
    ∷ range (codes "2002::") 16 reserved
    ∷ range (codes "3fff::") 20 documentation
    ∷ range (codes "5f00::") 16 reserved
    ∷ range (codes "fc00::") 7 private
    ∷ range (codes "fe80::") 10 link_local
    ∷ range (codes "ff00::") 8 multicast
    ∷ []
