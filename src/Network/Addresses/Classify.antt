-- ===== src/Network/Addresses/Classify.antt =====
-- src/server/network/addresses.ts, `matchesPrefix`, `categoryInRanges`, `classifyParsedAddress`.
use Prim.Native.Nat.{bit_and}
use chatwca.Prelude.{
  Bool, List, Option, Result, [], err, false, if◌then◌else◌, none, not, ok, replicate, some, suc,
  true, zero, ℕ, ◌%◌, ◌*◌, ◌-◌, ◌/◌, ◌==◌, ◌>>=◌, ◌^◌, ◌∷◌,
}
use chatwca.Prelude.Text.{Text, codes, text_eq}
use chatwca.Network.Addresses.Literal.{Family, v4, v6, ParsedIpAddress, parse_ip_address}
use chatwca.Network.Addresses.Ranges.{
  Category, public, unspecified, loopback, reserved, AddressRange, ipv4_non_public_ranges,
  ipv6_non_public_ranges,
}

-- `(0xff << (8 - bits)) & 0xff`.
abbrev pub mask : ℕ → ℕ
mask bits = bit_and (255 * 2 ^ (8 - bits)) 255

-- The masked comparison of one byte; a byte that is not there reads as 0 under `&`.
abbrev pub first_or_zero : List ℕ → ℕ
first_or_zero [] = 0
first_or_zero (b ∷ bs) = b

abbrev pub masked_eq : ℕ → ℕ → ℕ → Bool
masked_eq bits a b = bit_and a (mask bits) == bit_and b (mask bits)

-- The loop over `whole` bytes, and the byte that the prefix ends in. Two bytes that are both out
-- of range are equal (`undefined`).
unfoldable pub matches_bytes : ℕ → ℕ → List ℕ → List ℕ → Bool
matches_bytes zero bits bytes range =
    if bits == 0 then true else masked_eq bits (first_or_zero bytes) (first_or_zero range)
matches_bytes (suc whole) bits [] [] = matches_bytes whole bits [] []
matches_bytes (suc whole) bits [] (r ∷ range) = false
matches_bytes (suc whole) bits (b ∷ bytes) [] = false
matches_bytes (suc whole) bits (b ∷ bytes) (r ∷ range) =
    let rest = matches_bytes whole bits bytes range in if b == r then rest else false

unfoldable pub matches_prefix : List ℕ → List ℕ → ℕ → Bool
unfolding matches_bytes
matches_prefix bytes range n = matches_bytes (n / 8) (n % 8) bytes range

pub data InternalError : Type 0 where
  invalid_range invalid_mapped : InternalError

abbrev pub same_family : Family → Family → Bool
same_family v4 v4 = true
same_family v4 v6 = false
same_family v6 v4 = false
same_family v6 v6 = true

-- The body of the loop of `categoryInRanges`: `rest` is what the later ranges give.
abbrev pub in_range :
    ParsedIpAddress
    → AddressRange
    → Option ParsedIpAddress
    → Result InternalError (Option Category)
    → Result InternalError (Option Category)
in_range parsed range none rest = err invalid_range
in_range parsed range (some address) rest =
    if not (same_family address.family parsed.family)
    then err invalid_range
    else if matches_prefix parsed.bytes address.bytes range.prefix_length
    then ok (some range.category)
    else rest

unfoldable pub category_in_ranges :
    ParsedIpAddress → List AddressRange → Result InternalError (Option Category)
category_in_ranges parsed [] = ok none
category_in_ranges parsed (range ∷ ranges) =
    let rest = category_in_ranges parsed ranges in
    in_range parsed range (parse_ip_address range.prefix) rest

abbrev pub or_else : Option Category → Category → Category
or_else none c = c
or_else (some d) c = d

unfoldable pub classify_parsed_ipv4 : ParsedIpAddress → Result InternalError Category
classify_parsed_ipv4 parsed = do
  found ← category_in_ranges parsed ipv4_non_public_ranges
  ok (or_else found public)

-- The two singleton addresses get their own categories.
abbrev pub singletons : Text → Category → Category
singletons address category =
    if text_eq address (codes "::1")
    then loopback
    else if text_eq address (codes "::")
    then unspecified
    else category

-- `parseIpAddress("2000::")!.bytes`.
abbrev pub global_unicast : List ℕ
global_unicast = 0x20 ∷ replicate 15 0

unfoldable pub classify_parsed_ipv6 : ParsedIpAddress → Result InternalError Category
classify_parsed_ipv6 parsed = do
  found ← category_in_ranges parsed ipv6_non_public_ranges
  ok (
      singletons parsed.address
        (or_else found (if matches_prefix parsed.bytes global_unicast 3 then public else reserved)))

abbrev pub classify_mapped : Text → Result InternalError Category
classify_mapped text = elim (parse_ip_address text) [
  | none ↦ err invalid_mapped
  | some address ↦ classify_parsed_ipv4 address
]

-- The category that `classifyParsedAddress` finds.
unfoldable pub category_of : ParsedIpAddress → Result InternalError Category
category_of parsed = elim parsed.family [
  | v4 ↦ classify_parsed_ipv4 parsed
  | v6 ↦ elim parsed.mapped [
    | some text ↦ classify_mapped text
    | none ↦ classify_parsed_ipv6 parsed
  ]
]

pub record AddressClassification : Type 0 where
  pub parsed : ParsedIpAddress
  pub open parsed use *
  pub is_public : Bool
  pub category : Category

abbrev pub is_public_category : Category → Bool
is_public_category public = true
is_public_category _ = false

unfoldable pub classify_parsed_address :
    ParsedIpAddress → Result InternalError AddressClassification
classify_parsed_address parsed = do
  category ← category_of parsed
  ok (record { parsed = parsed; is_public = is_public_category category; category = category })

unfoldable pub classify_ip_address : Text → Result InternalError (Option AddressClassification)
classify_ip_address input = elim (parse_ip_address input) [
  | none ↦ ok none
  | some parsed ↦ do found ← classify_parsed_address parsed; ok (some found)
]
