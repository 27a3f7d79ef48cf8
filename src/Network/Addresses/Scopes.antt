-- ===== src/Network/Addresses/Scopes.antt =====
-- Which addresses are public, said without prefixes, masks and tables.
use chatwca.Prelude.{
  All, Bool, [], ap, arith, false, if◌then◌else◌, leb, ok, refl, replicate, some, true, ℕ, ◌&&◌,
  ◌++◌, ◌<◌, ◌==◌, ◌∙◌, ◌∷◌, ◌≡◌,
}
use chatwca.Prelude.Text.{Text}
use chatwca.Prelude.Tables.{failures, failures_none}
use chatwca.Network.Addresses.Format.{mapped_ipv4, format_ipv4}
use chatwca.Network.Addresses.Identity.{parse_ip_address-format_ipv4}
use chatwca.Network.Addresses.Octets.{IsByte}
use chatwca.Network.Addresses.Literal.{ParsedIpAddress, from_ipv4, from_ipv6, parse_ip_address}
use chatwca.Network.Addresses.Ranges.{
  Category, public, unspecified, private, loopback, link_local, carrier_grade_nat, documentation,
  benchmark, multicast, reserved,
}
use chatwca.Network.Addresses.Classify.{
  matches_prefix, masked_eq, or_else, classify_parsed_ipv4, category_of, classify_mapped,
}
use chatwca.Network.Addresses.Tables.{find_network, ipv4_networks, category_in_ipv4_ranges}

abbrev pub within : ℕ → ℕ → ℕ → Bool
within lo hi x = leb lo x && leb x hi

abbrev agree : Bool → Bool → Bool
agree true true = true
agree false false = true
agree true false = false
agree false true = false

agree→eq : (a b : Bool) → agree a b ≡ true → a ≡ b
agree→eq true true h = refl
agree→eq false false h = refl
agree→eq true false h = cc
agree→eq false true h = cc

-- A masked comparison of a byte is membership in an interval; the table is checked by evaluation.
pub masked_within :
    (bits r lo hi x : ℕ)
    → failures (λ y. agree (masked_eq bits y r) (within lo hi y)) 256 ≡ 0
    → x < 256
    → masked_eq bits x r ≡ within lo hi x
masked_within bits r lo hi x table h = agree→eq _ _ (failures_none _ x 256 h table)

masked_10 : (x : ℕ) → x < 256 → masked_eq 2 x 64 ≡ within 64 127 x
unfolding failures
masked_10 x = masked_within 2 64 64 127 x refl

masked_12 : (x : ℕ) → x < 256 → masked_eq 4 x 16 ≡ within 16 31 x
unfolding failures
masked_12 x = masked_within 4 16 16 31 x refl

masked_15 : (x : ℕ) → x < 256 → masked_eq 7 x 18 ≡ within 18 19 x
unfolding failures
masked_15 x = masked_within 7 18 18 19 x refl

masked_224 : (x : ℕ) → x < 256 → masked_eq 4 x 224 ≡ within 224 239 x
unfolding failures
masked_224 x = masked_within 4 224 224 239 x refl

masked_240 : (x : ℕ) → x < 256 → masked_eq 4 x 240 ≡ within 240 255 x
unfolding failures
masked_240 x = masked_within 4 240 240 255 x refl

-- The scope of a.b.c.d, by intervals of its bytes.
abbrev pub ipv4_scope : ℕ → ℕ → ℕ → ℕ → Category
ipv4_scope a b c d =
    if a == 0
    then unspecified
    else if a == 10
    then private
    else if (a == 100) && within 64 127 b
    then carrier_grade_nat
    else if a == 127
    then loopback
    else if (a == 169) && (b == 254)
    then link_local
    else if (a == 172) && within 16 31 b
    then private
    else if (a == 192) && (b == 0) && (c == 0)
    then reserved
    else if (a == 192) && (b == 0) && (c == 2)
    then documentation
    else if (a == 192) && (b == 88) && (c == 99)
    then reserved
    else if (a == 192) && (b == 168)
    then private
    else if (a == 198) && within 18 19 b
    then benchmark
    else if (a == 198) && (b == 51) && (c == 100)
    then documentation
    else if (a == 203) && (b == 0) && (c == 113)
    then documentation
    else if within 224 239 a
    then multicast
    else if leb 240 a
    then reserved
    else public

find_network-ipv4 :
    (a b c d : ℕ)
    → IsByte a
    → IsByte b
    → or_else (find_network (a ∷ b ∷ c ∷ d ∷ []) ipv4_networks) public ≡ ipv4_scope a b c d
unfolding find_network matches_prefix
find_network-ipv4 a b c d h k =
    rw (masked_10 b k, masked_12 b k, masked_15 b k, masked_224 a h, masked_240 a h) (ground arith)

classify_parsed_ipv4-scope :
    (a b c d : ℕ)
    → All IsByte (a ∷ b ∷ c ∷ d ∷ [])
    → classify_parsed_ipv4 (from_ipv4 (a ∷ b ∷ c ∷ d ∷ [])) ≡ ok (ipv4_scope a b c d)
unfolding classify_parsed_ipv4
classify_parsed_ipv4-scope a b c d (h, (k, _)) =
    rw (category_in_ipv4_ranges (from_ipv4 (a ∷ b ∷ c ∷ d ∷ [])) refl)
      (ap ok (find_network-ipv4 a b c d h k))

-- The category of a parsed IPv4 address of four bytes is its scope by the intervals above.
pub category_of-ipv4 :
    (a b c d : ℕ)
    → All IsByte (a ∷ b ∷ c ∷ d ∷ [])
    → category_of (from_ipv4 (a ∷ b ∷ c ∷ d ∷ [])) ≡ ok (ipv4_scope a b c d)
unfolding category_of
category_of-ipv4 a b c d h = classify_parsed_ipv4-scope a b c d h

pub classify_mapped-parsed :
    (t : Text) (p : ParsedIpAddress)
    → parse_ip_address t ≡ some p
    → classify_mapped t ≡ classify_parsed_ipv4 p
classify_mapped-parsed t p h = ground (arith, h)

-- The category of an IPv4-mapped IPv6 address (ten zero bytes, two of 255, then four bytes) is the
-- scope of the IPv4 address of the four bytes.
pub category_of-mapped :
    (a b c d : ℕ)
    → All IsByte (a ∷ b ∷ c ∷ d ∷ [])
    → category_of (from_ipv6 (replicate 10 0 ++ (255 ∷ 255 ∷ a ∷ b ∷ c ∷ d ∷ [])))
      ≡ ok (ipv4_scope a b c d)
unfolding category_of mapped_ipv4
category_of-mapped a b c d h =
    let bytes = a ∷ b ∷ c ∷ d ∷ [] in
    classify_mapped-parsed (format_ipv4 bytes) (from_ipv4 bytes)
      (parse_ip_address-format_ipv4 bytes refl h)
    ∙ classify_parsed_ipv4-scope a b c d h
