-- ===== src/Network/Addresses/Tests.antt =====
-- Runs of src/server/network/addresses.ts on literals.
use chatwca.Prelude.{
  All, List, Option, Result, [], arith, drop, err, length, none, ok, refl, replicate, some, true, ℕ,
  ◌++◌, ◌↔◌, ◌∷◌, ◌≡◌,
}
use chatwca.Prelude.Text.{Text, codes}
use chatwca.Network.Addresses.Octets.{parse_ipv4_iff, IsByte}
use chatwca.Network.Addresses.Roundtrip.{parse_ipv6-format_ipv6}
use chatwca.Network.Addresses.Shape.{parse_ipv6-IsByte}
use chatwca.Network.Addresses.Identity.{parse_ip_address_canonical}
use chatwca.Network.Addresses.Scopes.{category_of-ipv4, category_of-mapped, ipv4_scope}
use chatwca.Network.Addresses.Global.{category_of-ipv6, is_global}
use chatwca.Network.Addresses.Total.{Classified, classify_ip_address-Classified}
use chatwca.Network.Addresses.Parse.{parse_ipv4, parse_ipv6}
use chatwca.Network.Addresses.Format.{format_ipv4, format_ipv6, mapped_ipv4}
use chatwca.Network.Addresses.Runs.{parsing, classifying}
use chatwca.Network.Addresses.Literal.{ParsedIpAddress, parse_ip_address, from_ipv4, from_ipv6}
use chatwca.Network.Addresses.Classify.{
  category_of, global_unicast, classify_ip_address, AddressClassification, InternalError,
}
use chatwca.Network.Addresses.Ranges.{Category, public, private, loopback}

abbrev address_of : Option ParsedIpAddress → Text
address_of none = []
address_of (some p) = p.address

abbrev canonical : Text → Text
canonical t = address_of (parse_ip_address t)

abbrev bytes_of : Option ParsedIpAddress → List ℕ
bytes_of none = []
bytes_of (some p) = p.bytes

canonical_compressed : canonical (codes "2001:0DB8:0:0:1:0:0:1") ≡ codes "2001:db8::1:0:0:1"
unfolding parsing
canonical_compressed = refl

canonical_mapped : canonical (codes "::ffff:10.0.0.1") ≡ codes "::ffff:a00:1"
unfolding parsing
canonical_mapped = refl

leading_zero : parse_ip_address (codes "127.0.0.01") ≡ none
unfolding parsing
leading_zero = refl

two_pairs : parse_ip_address (codes "1::2::3") ≡ none
unfolding parsing
two_pairs = refl

global_unicast_bytes : bytes_of (parse_ip_address (codes "2000::")) ≡ global_unicast
unfolding parsing
global_unicast_bytes = refl

abbrev category_of_text : Result InternalError (Option AddressClassification) → Option Category
category_of_text (err e) = none
category_of_text (ok none) = none
category_of_text (ok (some a)) = some a.category

mapped_private : category_of_text (classify_ip_address (codes "::ffff:10.0.0.1")) ≡ some private
unfolding classifying
mapped_private = refl

google : category_of_text (classify_ip_address (codes "2001:4860:4860::8888")) ≡ some public
unfolding classifying
google = refl

one : category_of_text (classify_ip_address (codes "::1")) ≡ some loopback
unfolding classifying
one = refl

abbrev seven : List ℕ
seven = 10 ∷ 0 ∷ 0 ∷ 7 ∷ []

parse_ipv4_iff_example :
    (parse_ipv4 (codes "10.0.0.7") ≡ some seven)
    ↔ ((format_ipv4 seven ≡ codes "10.0.0.7") × (length seven ≡ 4) × All IsByte seven)
parse_ipv4_iff_example = parse_ipv4_iff (codes "10.0.0.7") seven

abbrev public_dns : List ℕ
public_dns = 32 ∷ 1 ∷ 72 ∷ 96 ∷ 72 ∷ 96 ∷ 0 ∷ 0 ∷ 0 ∷ 0 ∷ 0 ∷ 0 ∷ 0 ∷ 0 ∷ 136 ∷ 136 ∷ []

public_dns-IsByte : All IsByte public_dns
public_dns-IsByte = ground arith

parse_ipv6-format_ipv6_example : parse_ipv6 (format_ipv6 public_dns) ≡ some public_dns
parse_ipv6-format_ipv6_example = parse_ipv6-format_ipv6 public_dns refl public_dns-IsByte

parse_ipv6-IsByte_example : (length global_unicast ≡ 16) × All IsByte global_unicast
unfolding parsing
parse_ipv6-IsByte_example = parse_ipv6-IsByte (codes "2000::") global_unicast refl

abbrev ten : List ℕ
ten = 10 ∷ 0 ∷ 0 ∷ 1 ∷ []

ten-IsByte : All IsByte ten
ten-IsByte = ground arith

parse_ip_address_canonical_example :
    parse_ip_address (from_ipv6 global_unicast).address ≡ some (from_ipv6 global_unicast)
unfolding parsing
parse_ip_address_canonical_example =
    parse_ip_address_canonical (codes "2000:0:0::0") (from_ipv6 global_unicast) refl

category_of-ipv4_example : category_of (from_ipv4 ten) ≡ ok (ipv4_scope 10 0 0 1)
category_of-ipv4_example = category_of-ipv4 10 0 0 1 ten-IsByte

category_of-mapped_example :
    category_of (from_ipv6 (replicate 10 0 ++ (255 ∷ 255 ∷ 10 ∷ 0 ∷ 0 ∷ 1 ∷ [])))
    ≡ ok (ipv4_scope 10 0 0 1)
category_of-mapped_example = category_of-mapped 10 0 0 1 ten-IsByte

category_of-ipv6_example :
    (category_of (from_ipv6 public_dns) ≡ ok public) ↔ (is_global 32 1 72 96 ≡ true)
unfolding mapped_ipv4
category_of-ipv6_example =
    category_of-ipv6 32 1 72 96 (drop 4 public_dns) refl public_dns-IsByte refl

classify_ip_address-Classified_example :
    Classified (codes "fe80::1") (classify_ip_address (codes "fe80::1"))
classify_ip_address-Classified_example = classify_ip_address-Classified (codes "fe80::1")
