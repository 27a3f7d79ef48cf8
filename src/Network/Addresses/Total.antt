-- ===== src/Network/Addresses/Total.antt =====
-- The two internal errors of src/server/network/addresses.ts cannot happen.
use chatwca.Prelude.{
  All, List, Option, Option-cases, Result, [], ap, arith, drop, err, inl, inr, length, length-drop,
  none, ok, refl, some, subst, suc, true, zero, ℕ, ◌↔◌, ◌∙◌, ◌∷◌, ◌≡◌,
}
use chatwca.Prelude.Text.{Text}
use chatwca.Network.Addresses.Octets.{IsByte}
use chatwca.Network.Addresses.Format.{format_ipv4, mapped_ipv4}
use chatwca.Network.Addresses.Literal.{
  ParsedIpAddress, parse_ip_address, from_ipv4, from_ipv6, v4, v6,
}
use chatwca.Network.Addresses.Ranges.{Category, public}
use chatwca.Network.Addresses.Classify.{
  category_of, classify_parsed_ipv4, classify_parsed_ipv6, InternalError, classify_mapped,
  classify_ip_address, classify_parsed_address, AddressClassification, is_public_category,
}
use chatwca.Network.Addresses.Scopes.{classify_mapped-parsed}
use chatwca.Network.Addresses.Global.{category_of-unmapped}
use chatwca.Network.Addresses.Tables.{category_in_ipv4_ranges, category_in_ipv6_ranges}
use chatwca.Network.Addresses.Identity.{
  parse_ip_address-format_ipv4, parse_ip_address-IsAddress, IsAddress,
}

abbrev Succeeds : Result InternalError Category → Type 0
Succeeds r = (c : Category) × (r ≡ ok c)

Succeeds-of_eq : {r s : Result InternalError Category} → r ≡ s → Succeeds s → Succeeds r
Succeeds-of_eq e (c, h) = (c, e ∙ h)

ipv4-Succeeds : (p : ParsedIpAddress) → p.family ≡ v4 → Succeeds (classify_parsed_ipv4 p)
unfolding classify_parsed_ipv4
ipv4-Succeeds p e = rw (category_in_ipv4_ranges p e) (_, refl)

ipv6-Succeeds : (p : ParsedIpAddress) → p.family ≡ v6 → Succeeds (classify_parsed_ipv6 p)
unfolding classify_parsed_ipv6
ipv6-Succeeds p e = rw (category_in_ipv6_ranges p e) (_, refl)

All-drop : (n : ℕ) (xs : List ℕ) → All IsByte xs → All IsByte (drop n xs)
All-drop zero xs h = h
All-drop (suc n) [] h = tt
All-drop (suc n) (x ∷ xs) (h, k) = All-drop n xs k

mapped_ipv4-cases :
    (bytes tail : List ℕ)
    → mapped_ipv4 bytes ≡ some tail
    → (x : ℕ) × (y : ℕ) × (drop 10 bytes ≡ x ∷ y ∷ tail) × (length bytes ≡ 16)
unfolding mapped_ipv4
mapped_ipv4-cases bytes tail h = ground arith

mapped-Succeeds :
    (bytes tail : List ℕ)
    → All IsByte bytes
    → mapped_ipv4 bytes ≡ some tail
    → Succeeds (classify_mapped (format_ipv4 tail))
mapped-Succeeds bytes tail h m =
    let (x, y, rest, sixteen) = mapped_ipv4-cases bytes tail m in
    let good = subst (All IsByte) rest (All-drop 10 bytes h) in
    let four : length tail ≡ 4 = omega (arith, ap (length {A = ℕ}) rest, length-drop 10 bytes) in
    Succeeds-of_eq
      (classify_mapped-parsed (format_ipv4 tail) (from_ipv4 tail)
        (parse_ip_address-format_ipv4 tail four good.1.1))
      (ipv4-Succeeds (from_ipv4 tail) refl)

category_of-tail :
    (bytes tail : List ℕ)
    → mapped_ipv4 bytes ≡ some tail
    → category_of (from_ipv6 bytes) ≡ classify_mapped (format_ipv4 tail)
unfolding category_of
category_of-tail bytes tail h = ground (arith, h)

category_of-Succeeds : (p : ParsedIpAddress) → IsAddress p → Succeeds (category_of p)
category_of-Succeeds p (inl (bytes, len, good, e)) =
    rw e (unfold category_of in ipv4-Succeeds (from_ipv4 bytes) refl)
category_of-Succeeds p (inr (bytes, len, good, e)) = elim (Option-cases (mapped_ipv4 bytes)) [
  | inl unmapped ↦
      Succeeds-of_eq (ap category_of e ∙ category_of-unmapped bytes unmapped)
        (ipv6-Succeeds (from_ipv6 bytes) refl)
  | inr (tail, mapped) ↦
      Succeeds-of_eq (ap category_of e ∙ category_of-tail bytes tail mapped)
        (mapped-Succeeds bytes tail good mapped)
]

-- What `classifyIpAddress` returns: nothing on a text that is no literal, and otherwise the parsed
-- address with a category, and `isPublic` exactly for the category `public`.
abbrev pub Classified : Text → Result InternalError (Option AddressClassification) → Type 0
Classified t (err e) = ⊥
Classified t (ok none) = parse_ip_address t ≡ none
Classified t (ok (some a)) =
    (parse_ip_address t ≡ some a.parsed)
    × (category_of a.parsed ≡ ok a.category)
    × ((a.is_public ≡ true) ↔ (a.category ≡ public))

is_public_iff : (c : Category) → (is_public_category c ≡ true) ↔ (c ≡ public)
is_public_iff c = ground arith

-- `classifyIpAddress` never throws its internal errors: on every text it returns `null` exactly
-- when the text is no literal, and otherwise a classification of the parsed address.
pub classify_ip_address-Classified : (t : Text) → Classified t (classify_ip_address t)
unfolding classify_ip_address classify_parsed_address
classify_ip_address-Classified t = elim (Option-cases (parse_ip_address t)) [
  | inl bad ↦ rw (bad, classify_ip_address) bad
  | inr (p, good) ↦
      let (c, found) = category_of-Succeeds p (parse_ip_address-IsAddress t p good) in
      rw (good, found, classify_ip_address) (good, found, is_public_iff c)
]
