-- ===== src/Network/Addresses/Global.antt =====
-- Which IPv6 addresses are public, said without prefixes, masks and tables.
use mathlib.Core.Bool.{true≢false}
use mathlib.Core.Option.{some-injective}
use chatwca.Prelude.{
  All, Bool, Bool-cases, List, Result, [], any, ap, arith, false, if◌then◌else◌, inl, inr, leb,
  length, none, not, ok, refl, replicate, some, sym, true, ℕ, ◌&&◌, ◌++◌, ◌<◌, ◌==◌, ◌↔◌, ◌∙◌, ◌∷◌,
  ◌≡◌, ◌≢◌,
}
use chatwca.Prelude.Text.Equality.{text_eq_sound}
use chatwca.Prelude.Text.{Text, text_eq, codes}
use chatwca.Prelude.Tables.{failures}
use chatwca.Network.Addresses.Runs.{parsing}
use chatwca.Network.Addresses.Octets.{IsByte}
use chatwca.Network.Addresses.Parse.{parse_ipv6}
use chatwca.Network.Addresses.Format.{mapped_ipv4, format_ipv6}
use chatwca.Network.Addresses.Roundtrip.{parse_ipv6-format_ipv6}
use chatwca.Network.Addresses.Literal.{from_ipv6}
use chatwca.Network.Addresses.Ranges.{Category, public, reserved}
use chatwca.Network.Addresses.Classify.{
  matches_prefix, masked_eq, or_else, category_of, classify_parsed_ipv6, global_unicast, singletons,
  InternalError, first_or_zero,
}
use chatwca.Network.Addresses.Tables.{find_network, ipv6_networks, category_in_ipv6_ranges, Network}
use chatwca.Network.Addresses.Scopes.{within, masked_within}

masked_3 : (x : ℕ) → x < 256 → masked_eq 3 x 32 ≡ within 32 63 x
unfolding failures
masked_3 x = masked_within 3 32 32 63 x refl

masked_23 : (x : ℕ) → x < 256 → masked_eq 7 x 0 ≡ within 0 1 x
unfolding failures
masked_23 x = masked_within 7 0 0 1 x refl

masked_20 : (x : ℕ) → x < 256 → masked_eq 4 x 0 ≡ within 0 15 x
unfolding failures
masked_20 x = masked_within 4 0 0 15 x refl

masked_7 : (x : ℕ) → x < 256 → masked_eq 7 x 252 ≡ within 252 253 x
unfolding failures
masked_7 x = masked_within 7 252 252 253 x refl

-- The addresses from 2000:: to 3fff:..., less 2001::/23, 2001:db8::/32, 2002::/16 and 3fff::/20,
-- by their first four bytes.
abbrev pub is_global : ℕ → ℕ → ℕ → ℕ → Bool
is_global a b c d =
    within 32 63 a
    && not ((a == 0x20) && (b == 1) && leb c 1)
    && not ((a == 0x20) && (b == 1) && (c == 0x0d) && (d == 0xb8))
    && not ((a == 0x20) && (b == 2))
    && not ((a == 0x3f) && (b == 0xff) && leb c 15)

abbrev hits : List ℕ → Network → Bool
hits bytes n = matches_prefix bytes n.bytes n.bits

abbrev Misses : List ℕ → List Network → Type 0
Misses bytes = All (λ n. hits bytes n ≡ false)

-- The category by a table with no public entry is public exactly when no entry matches and the
-- address is in 2000::/3.
find_network-public :
    (bytes : List ℕ) (ns : List Network) (g : Bool)
    → All (λ n. n.category ≢ public) ns
    → (or_else (find_network bytes ns) (if g then public else reserved) ≡ public)
      ↔ (Misses bytes ns × (g ≡ true))
unfolding find_network
find_network-public bytes [] g h = ground arith
find_network-public bytes (n ∷ ns) g (h, k) = elim (Bool-cases (hits bytes n)) [
  | inl hit ↦ rw hit (λ e. absurd (h e), λ m. absurd (true≢false m.0.0))
  | inr miss ↦
      let (to, from) = find_network-public bytes ns g k in
      rw miss (λ e. ((refl, (to e).0), (to e).1), λ m. from (m.0.1, m.1))
]

no_public_network : All (λ n. n.category ≢ public) ipv6_networks
no_public_network =
    (cc, (cc, (cc, (cc, (cc, (cc, (cc, (cc, (cc, (cc, (cc, (cc, (cc, (cc, (cc, tt)))))))))))))))

module _ (a b c d : ℕ) (rest : List ℕ) (ha : IsByte a) (hb : IsByte b) (hc : IsByte c) where
  global-Misses : is_global a b c d ≡ true → Misses (a ∷ b ∷ c ∷ d ∷ rest) ipv6_networks
  unfolding matches_prefix
  global-Misses h = (
    ground arith,
    (
      ground arith,
      (
        ground arith,
        (
          ground arith,
          (
            ground arith,
            (
              ground arith,
              (
                ground arith,
                (
                  ground (arith, masked_23 c hc),
                  (
                    ground arith,
                    (
                      ground arith,
                      (
                        ground (arith, masked_20 c hc),
                        (
                          ground arith,
                          (ground (arith, masked_7 a ha), (ground arith, (ground arith, tt))),
                        ),
                      ),
                    ),
                  ),
                ),
              ),
            ),
          ),
        ),
      ),
    ),
  )

  Misses-global :
      Misses (a ∷ b ∷ c ∷ d ∷ rest) ipv6_networks
      → matches_prefix (a ∷ b ∷ c ∷ d ∷ rest) global_unicast 3 ≡ true
      → is_global a b c d ≡ true
  unfolding matches_prefix
  Misses-global m g = ground (
    arith,
    masked_3 a ha,
    masked_23 c hc,
    masked_20 c hc,
    m.1.1.1.1.1.1.1.0,
    m.1.1.1.1.1.1.1.1.0,
    m.1.1.1.1.1.1.1.1.1.0,
    m.1.1.1.1.1.1.1.1.1.1.0,
  )

unspecified_bytes : parse_ipv6 (codes "::") ≡ some (replicate 16 0)
unfolding parsing
unspecified_bytes = refl

loopback_bytes : parse_ipv6 (codes "::1") ≡ some (replicate 15 0 ++ (1 ∷ []))
unfolding parsing
loopback_bytes = refl

same_bytes :
    (bytes other_bytes : List ℕ) (t : Text)
    → length bytes ≡ 16
    → All IsByte bytes
    → text_eq (format_ipv6 bytes) t ≡ true
    → parse_ipv6 t ≡ some other_bytes
    → bytes ≡ other_bytes
same_bytes bytes other_bytes t e h same parsed = some-injective _ _ (
    sym (parse_ipv6-format_ipv6 bytes e h)
    ∙ (ap parse_ipv6 (text_eq_sound (format_ipv6 bytes) t same) ∙ parsed))

-- An address with a first byte other than 0 is neither singleton.
singletons-other :
    (bytes : List ℕ) (category : Category)
    → length bytes ≡ 16
    → All IsByte bytes
    → first_or_zero bytes ≢ 0
    → singletons (format_ipv6 bytes) category ≡ category
singletons-other bytes category e h first =
    elim (Bool-cases (text_eq (format_ipv6 bytes) (codes "::1"))) [
      | inl one ↦
          absurd
            (first (ap first_or_zero (same_bytes bytes _ (codes "::1") e h one loopback_bytes)))
      | inr not_one ↦ elim (Bool-cases (text_eq (format_ipv6 bytes) (codes "::"))) [
        | inl any ↦
            absurd
              (first (ap first_or_zero (same_bytes bytes _ (codes "::") e h any unspecified_bytes)))
        | inr not_any ↦ rw (not_one, not_any)
      ]
    ]

singletons-public : (t : Text) (c : Category) → singletons t c ≡ public → c ≡ public
singletons-public t c h = ground (arith, h)

classify_parsed_ipv6-network :
    (bytes : List ℕ)
    → classify_parsed_ipv6 (from_ipv6 bytes)
      ≡ ok (
          singletons (format_ipv6 bytes) (
            or_else
              (find_network bytes ipv6_networks)
              (if matches_prefix bytes global_unicast 3 then public else reserved)))
unfolding classify_parsed_ipv6
classify_parsed_ipv6-network bytes = rw (category_in_ipv6_ranges (from_ipv6 bytes) refl)

pub category_of-unmapped :
    (bytes : List ℕ)
    → mapped_ipv4 bytes ≡ none
    → category_of (from_ipv6 bytes) ≡ classify_parsed_ipv6 (from_ipv6 bytes)
unfolding category_of
category_of-unmapped bytes h = ground (arith, h)

ok-injective : (c d : Category) → ◌≡◌ {A = Result InternalError Category} (ok c) (ok d) → c ≡ d
ok-injective c d h = cc

global-nonzero : (a b c d : ℕ) → is_global a b c d ≡ true → a ≢ 0
global-nonzero a b c d h = ground arith

global-matches :
    (a b c d : ℕ) (rest : List ℕ)
    → IsByte a
    → is_global a b c d ≡ true
    → matches_prefix (a ∷ b ∷ c ∷ d ∷ rest) global_unicast 3 ≡ true
unfolding matches_prefix
global-matches a b c d rest h g = ground (arith, masked_3 a h)

-- An IPv6 address of sixteen bytes that maps no IPv4 address is public exactly when it is in
-- 2000::/3 and outside
-- 2001::/23, 2001:db8::/32, 2002::/16 and 3fff::/20.
pub category_of-ipv6 :
    (a b c d : ℕ) (rest : List ℕ)
    → length (a ∷ b ∷ c ∷ d ∷ rest) ≡ 16
    → All IsByte (a ∷ b ∷ c ∷ d ∷ rest)
    → mapped_ipv4 (a ∷ b ∷ c ∷ d ∷ rest) ≡ none
    → (category_of (from_ipv6 (a ∷ b ∷ c ∷ d ∷ rest)) ≡ ok public) ↔ (is_global a b c d ≡ true)
category_of-ipv6 a b c d rest e h unmapped =
    let bytes = a ∷ b ∷ c ∷ d ∷ rest in
    let (ha, (hb, (hc, _))) = h in
    let (to, from) =
      find_network-public bytes ipv6_networks (matches_prefix bytes global_unicast 3)
        no_public_network in
    let code = category_of-unmapped bytes unmapped ∙ classify_parsed_ipv6-network bytes in
    (
      λ p.
          let m = to (singletons-public (format_ipv6 bytes) _ (ok-injective _ _ (sym code ∙ p))) in
          Misses-global a b c d rest ha hb hc m.0 m.1,
      λ g.
          code
          ∙ ap ok (
              singletons-other bytes _ e h (global-nonzero a b c d g)
              ∙ from (global-Misses a b c d rest ha hb hc g, global-matches a b c d rest ha g)),
    )
