-- ===== src/Network/Addresses/Tables.antt =====
-- The loop of `categoryInRanges` over a table of texts finds what a search in the table of their
-- bytes finds: every prefix of the two tables parses, to the family of its table.
use chatwca.Prelude.{
  List, Option, [], arith, if◌then◌else◌, none, ok, refl, replicate, some, ℕ, ◌%◌, ◌/◌, ◌∷◌, ◌≡◌,
}
use chatwca.Network.Addresses.Runs.{parsing}
use chatwca.Network.Addresses.Literal.{
  Family, v4, v6, ParsedIpAddress, parse_ip_address, from_ipv4, from_ipv6,
}
use chatwca.Network.Addresses.Ranges.{
  Category, unspecified, private, loopback, link_local, carrier_grade_nat, documentation, benchmark,
  multicast, reserved, AddressRange, ipv4_non_public_ranges, ipv6_non_public_ranges,
}
use chatwca.Network.Addresses.Classify.{matches_prefix, category_in_ranges}

pub record Network : Type 0 where
  pub bytes : List ℕ
  pub bits : ℕ
  pub category : Category

abbrev net : List ℕ → ℕ → Category → Network
net bytes bits category = record { bytes = bytes; bits = bits; category = category }

unfoldable pub find_network : List ℕ → List Network → Option Category
find_network bytes [] = none
find_network bytes (n ∷ ns) =
    let rest = find_network bytes ns in
    if matches_prefix bytes n.bytes n.bits then some n.category else rest

-- The two tables agree, entry by entry.
abbrev Compiles : (List ℕ → ParsedIpAddress) → List AddressRange → List Network → Type 0
Compiles build [] [] = Unit
Compiles build [] (n ∷ ns) = ⊥
Compiles build (r ∷ rs) [] = ⊥
Compiles build (r ∷ rs) (n ∷ ns) =
    (parse_ip_address r.prefix ≡ some (build n.bytes))
    × (r.prefix_length ≡ n.bits)
    × (r.category ≡ n.category)
    × Compiles build rs ns

category_in_ranges-find :
    (build : List ℕ → ParsedIpAddress) (f : Family)
    → ((bytes : List ℕ) → ((build bytes).family ≡ f) × ((build bytes).bytes ≡ bytes))
    → (parsed : ParsedIpAddress) → parsed.family ≡ f
    → (rs : List AddressRange) (ns : List Network) → Compiles build rs ns
    → category_in_ranges parsed rs ≡ ok (find_network parsed.bytes ns)
unfolding category_in_ranges find_network
category_in_ranges-find build f good parsed e [] [] c = refl
category_in_ranges-find build f good parsed e [] (n ∷ ns) c = absurd c
category_in_ranges-find build f good parsed e (r ∷ rs) [] c = absurd c
category_in_ranges-find build f good parsed e (r ∷ rs) (n ∷ ns) (text, bits, category, c) =
    ground (arith, good n.bytes, category_in_ranges-find build f good parsed e rs ns c)

abbrev pub ipv4_networks : List Network
ipv4_networks =
    net (0 ∷ 0 ∷ 0 ∷ 0 ∷ []) 8 unspecified
    ∷ net (10 ∷ 0 ∷ 0 ∷ 0 ∷ []) 8 private
    ∷ net (100 ∷ 64 ∷ 0 ∷ 0 ∷ []) 10 carrier_grade_nat
    ∷ net (127 ∷ 0 ∷ 0 ∷ 0 ∷ []) 8 loopback
    ∷ net (169 ∷ 254 ∷ 0 ∷ 0 ∷ []) 16 link_local
    ∷ net (172 ∷ 16 ∷ 0 ∷ 0 ∷ []) 12 private
    ∷ net (192 ∷ 0 ∷ 0 ∷ 0 ∷ []) 24 reserved
    ∷ net (192 ∷ 0 ∷ 2 ∷ 0 ∷ []) 24 documentation
    ∷ net (192 ∷ 88 ∷ 99 ∷ 0 ∷ []) 24 reserved
    ∷ net (192 ∷ 168 ∷ 0 ∷ 0 ∷ []) 16 private
    ∷ net (198 ∷ 18 ∷ 0 ∷ 0 ∷ []) 15 benchmark
    ∷ net (198 ∷ 51 ∷ 100 ∷ 0 ∷ []) 24 documentation
    ∷ net (203 ∷ 0 ∷ 113 ∷ 0 ∷ []) 24 documentation
    ∷ net (224 ∷ 0 ∷ 0 ∷ 0 ∷ []) 4 multicast
    ∷ net (240 ∷ 0 ∷ 0 ∷ 0 ∷ []) 4 reserved
    ∷ []

-- The sixteen bytes whose first two to six are given by words.
abbrev words : ℕ → ℕ → ℕ → List ℕ
words a b c = (a / 256) ∷ (a % 256) ∷ (b / 256) ∷ (b % 256) ∷ (c / 256) ∷ (c % 256) ∷ replicate 10 0

abbrev pub ipv6_networks : List Network
ipv6_networks =
    net (words 0 0 0) 96 reserved
    ∷ net (words 0x64 0xff9b 0) 96 reserved
    ∷ net (words 0x64 0xff9b 1) 48 reserved
    ∷ net (words 0x100 0 0) 64 reserved
    ∷ net (words 0x2001 2 0) 48 benchmark
    ∷ net (words 0x2001 0x10 0) 28 reserved
    ∷ net (words 0x2001 0x20 0) 28 reserved
    ∷ net (words 0x2001 0 0) 23 reserved
    ∷ net (words 0x2001 0xdb8 0) 32 documentation
    ∷ net (words 0x2002 0 0) 16 reserved
    ∷ net (words 0x3fff 0 0) 20 documentation
    ∷ net (words 0x5f00 0 0) 16 reserved
    ∷ net (words 0xfc00 0 0) 7 private
    ∷ net (words 0xfe80 0 0) 10 link_local
    ∷ net (words 0xff00 0 0) 8 multicast
    ∷ []

ipv4-Compiles : Compiles from_ipv4 ipv4_non_public_ranges ipv4_networks
unfolding parsing ipv4_non_public_ranges
ipv4-Compiles = (
  refl,
  refl,
  refl,
  (
    refl,
    refl,
    refl,
    (
      refl,
      refl,
      refl,
      (
        refl,
        refl,
        refl,
        (
          refl,
          refl,
          refl,
          (
            refl,
            refl,
            refl,
            (
              refl,
              refl,
              refl,
              (
                refl,
                refl,
                refl,
                (
                  refl,
                  refl,
                  refl,
                  (
                    refl,
                    refl,
                    refl,
                    (
                      refl,
                      refl,
                      refl,
                      (
                        refl,
                        refl,
                        refl,
                        (refl, refl, refl, (refl, refl, refl, (refl, refl, refl, tt))),
                      ),
                    ),
                  ),
                ),
              ),
            ),
          ),
        ),
      ),
    ),
  ),
)

ipv6-Compiles : Compiles from_ipv6 ipv6_non_public_ranges ipv6_networks
unfolding parsing ipv6_non_public_ranges
ipv6-Compiles = (
  refl,
  refl,
  refl,
  (
    refl,
    refl,
    refl,
    (
      refl,
      refl,
      refl,
      (
        refl,
        refl,
        refl,
        (
          refl,
          refl,
          refl,
          (
            refl,
            refl,
            refl,
            (
              refl,
              refl,
              refl,
              (
                refl,
                refl,
                refl,
                (
                  refl,
                  refl,
                  refl,
                  (
                    refl,
                    refl,
                    refl,
                    (
                      refl,
                      refl,
                      refl,
                      (
                        refl,
                        refl,
                        refl,
                        (refl, refl, refl, (refl, refl, refl, (refl, refl, refl, tt))),
                      ),
                    ),
                  ),
                ),
              ),
            ),
          ),
        ),
      ),
    ),
  ),
)

pub category_in_ipv4_ranges :
    (parsed : ParsedIpAddress)
    → parsed.family ≡ v4
    → category_in_ranges parsed ipv4_non_public_ranges
      ≡ ok (find_network parsed.bytes ipv4_networks)
category_in_ipv4_ranges parsed e =
    category_in_ranges-find from_ipv4 v4 (λ bytes. (refl, refl)) parsed e ipv4_non_public_ranges
      ipv4_networks ipv4-Compiles

pub category_in_ipv6_ranges :
    (parsed : ParsedIpAddress)
    → parsed.family ≡ v6
    → category_in_ranges parsed ipv6_non_public_ranges
      ≡ ok (find_network parsed.bytes ipv6_networks)
category_in_ipv6_ranges parsed e =
    category_in_ranges-find from_ipv6 v6 (λ bytes. (refl, refl)) parsed e ipv6_non_public_ranges
      ipv6_networks ipv6-Compiles
