-- ===== src/Network/Addresses/Identity.antt =====
-- The canonical text of an address is an accepted literal, and stands for the same address.
use mathlib.Core.Option.{none-ne-some, some-injective}
use chatwca.Prelude.{
  All, Bool-cases, List, Option-cases, [], arith, false, inl, inr, length, none, refl, some, sym, ℕ,
  ◌∷◌, ◌≡◌, ◌⊎◌,
}
use chatwca.Prelude.Text.{Text, split, includes}
use chatwca.Prelude.Text.Split.{split_plain}
use chatwca.Network.Addresses.Octets.{IsByte, parse_ipv4_iff}
use chatwca.Network.Addresses.Canonical.{
  is_refused_literal, format_ipv4_literal, ipv6_chars_literal, ipv6_chars_plain,
}
use chatwca.Network.Addresses.Parse.{parse_ipv4, parse_ipv6, is_empty}
use chatwca.Network.Addresses.Format.{format_ipv4, format_ipv6}
use chatwca.Network.Addresses.Roundtrip.{parse_ipv6-format_ipv6, format_ipv6-chars}
use chatwca.Network.Addresses.Shape.{parse_ipv6-IsByte}
use chatwca.Network.Addresses.Literal.{
  ParsedIpAddress, parse_ip_address, from_ipv4, from_ipv6, is_refused,
}

not_empty_of_parse :
    (t : Text) (bytes : List ℕ)
    → (parse_ipv4 t ≡ some bytes) ⊎ (parse_ipv6 t ≡ some bytes)
    → is_empty t ≡ false
unfolding parse_ipv4 parse_ipv6 split
not_empty_of_parse [] bytes (inl h) = cc
not_empty_of_parse [] bytes (inr h) = cc
not_empty_of_parse (c ∷ cs) bytes h = refl

pub parse_ip_address-format_ipv4 :
    (bytes : List ℕ)
    → length bytes ≡ 4
    → All IsByte bytes
    → parse_ip_address (format_ipv4 bytes) ≡ some (from_ipv4 bytes)
unfolding parse_ip_address
parse_ip_address-format_ipv4 bytes e h =
    let t = format_ipv4 bytes in
    let parsed : parse_ipv4 t ≡ some bytes = (parse_ipv4_iff t bytes).1 (refl, e, h) in
    let accepted =
      is_refused_literal t (format_ipv4_literal bytes h)
        (not_empty_of_parse t bytes (inl parsed)) in
    ground (arith, parsed, accepted)

one_part : (t : Text) → includes b'.' t ≡ false → parse_ipv4 t ≡ none
unfolding parse_ipv4
one_part t h = rw (split_plain b'.' t h) refl

pub parse_ip_address-format_ipv6 :
    (bytes : List ℕ)
    → length bytes ≡ 16
    → All IsByte bytes
    → parse_ip_address (format_ipv6 bytes) ≡ some (from_ipv6 bytes)
unfolding parse_ip_address
parse_ip_address-format_ipv6 bytes e h =
    let t = format_ipv6 bytes in
    let parsed = parse_ipv6-format_ipv6 bytes e h in
    let chars = format_ipv6-chars bytes h in
    let (dots, percent) = ipv6_chars_plain t chars in
    let accepted =
      is_refused_literal t (ipv6_chars_literal t chars) (not_empty_of_parse t bytes (inr parsed)) in
    ground (arith, parsed, accepted, one_part t dots)

-- A parsed address is that of four bytes, or that of sixteen.
abbrev pub IsAddress : ParsedIpAddress → Type 0
IsAddress p =
    ((bytes : List ℕ) × (length bytes ≡ 4) × All IsByte bytes × (p ≡ from_ipv4 bytes))
    ⊎ ((bytes : List ℕ) × (length bytes ≡ 16) × All IsByte bytes × (p ≡ from_ipv6 bytes))

parse_ip_address-cases :
    (t : Text) (p : ParsedIpAddress)
    → parse_ip_address t ≡ some p
    → ((bytes : List ℕ) × (parse_ipv4 t ≡ some bytes) × (from_ipv4 bytes ≡ p))
      ⊎ ((bytes : List ℕ) × (parse_ipv6 t ≡ some bytes) × (from_ipv6 bytes ≡ p))
unfolding parse_ip_address
parse_ip_address-cases t p h = elim (Bool-cases (is_refused t)) [
  | inl refused ↦ absurd (none-ne-some p (rw (refused, parse_ip_address) at h))
  | inr accepted ↦ elim (Option-cases (parse_ipv4 t)) [
    | inr (bytes, four) ↦ inl (bytes, four, some-injective _ _ (rw (accepted, four) at h))
    | inl not_four ↦ elim (Option-cases (parse_ipv6 t)) [
      | inr (bytes, six) ↦ inr (bytes, six, some-injective _ _ (rw (accepted, not_four, six) at h))
      | inl bad ↦ absurd (none-ne-some p (rw (accepted, not_four, bad) at h))
    ]
  ]
]

pub parse_ip_address-IsAddress :
    (t : Text) (p : ParsedIpAddress) → parse_ip_address t ≡ some p → IsAddress p
parse_ip_address-IsAddress t p h = elim (parse_ip_address-cases t p h) [
  | inl (bytes, four, e) ↦
      let (text, len, good) = (parse_ipv4_iff t bytes).0 four in inl (bytes, len, good, sym e)
  | inr (bytes, six, e) ↦
      let (len, good) = parse_ipv6-IsByte t bytes six in inr (bytes, len, good, sym e)
]

-- Parsing the canonical text of an accepted literal gives the same address again, in every field.
pub parse_ip_address_canonical :
    (t : Text) (p : ParsedIpAddress)
    → parse_ip_address t ≡ some p
    → parse_ip_address p.address ≡ some p
parse_ip_address_canonical t p h = elim (parse_ip_address-IsAddress t p h) [
  | inl (bytes, len, good, e) ↦ rw e (parse_ip_address-format_ipv4 bytes len good)
  | inr (bytes, len, good, e) ↦ rw e (parse_ip_address-format_ipv6 bytes len good)
]
