-- ===== src/Network/Addresses/Parse.antt =====
-- src/server/network/addresses.ts, `parseIpv4`, `parseHextetSequence`, `parseIpv6`. A text is the
-- list of its code units, a `Uint8Array` the list of its bytes, `null` is `none`.
use chatwca.Prelude.{
  Bool, List, Option, [], all, drop, false, if◌then◌else◌, leb, length, ltb, none, replicate, some,
  take, true, ℕ, ◌%◌, ◌&&◌, ◌*◌, ◌++◌, ◌+◌, ◌-◌, ◌/◌, ◌==◌, ◌||◌, ◌∷◌,
}
use chatwca.Prelude.Text.{
  Text, split, includes, is_digit, decimal_value, decimal_from, is_hex_digit, hex_value, hex_from,
}

abbrev pub is_empty : Text → Bool
is_empty [] = true
is_empty (_ ∷ _) = false

-- `/^(?:0|[1-9][0-9]{0,2})$/`.
unfoldable pub is_octet_text : Text → Bool
is_octet_text [] = false
is_octet_text (c ∷ cs) =
    ((c == b'0') && is_empty cs)
    || (leb b'1' c && leb c b'9' && all is_digit cs && leb (length cs) 2)

unfoldable pub parse_octet : Text → Option ℕ
unfolding is_octet_text decimal_from
parse_octet part =
    if is_octet_text part
    then (if ltb 255 (decimal_value part) then none else some (decimal_value part))
    else none

-- The loop of `parseIpv4` over the parts.
unfoldable pub parse_octets : List Text → Option (List ℕ)
parse_octets [] = some []
parse_octets (part ∷ parts) = elim (parse_octet part) [
  | none ↦ none
  | some value ↦ elim (parse_octets parts) [ none ↦ none | some rest ↦ some (value ∷ rest) ]
]

unfoldable pub parse_ipv4 : Text → Option (List ℕ)
parse_ipv4 input =
    let parts = split b'.' input in if length parts == 4 then parse_octets parts else none

-- The two words of an IPv4 tail, `(a << 8) | b` and `(c << 8) | d` of bytes.
abbrev pub tail_words : List ℕ → List ℕ
tail_words (a ∷ b ∷ c ∷ d ∷ []) = (a * 256 + b) ∷ (c * 256 + d) ∷ []
tail_words _ = []

-- `/^[0-9a-fA-F]{1,4}$/`, of a part that is not empty.
abbrev pub is_hextet_text : Text → Bool
is_hextet_text part = all is_hex_digit part && leb (length part) 4

-- One round of the loop of `parseHextetSequence`; `last` says that the part is the last.
unfoldable pub parse_hextet : Bool → Bool → Text → Option (List ℕ)
unfolding hex_from
parse_hextet allow_ipv4 last [] = none
parse_hextet allow_ipv4 last (c ∷ cs) =
    if includes b'.' (c ∷ cs)
    then (if allow_ipv4 && last
        then elim (parse_ipv4 (c ∷ cs)) [ none ↦ none | some bytes ↦ some (tail_words bytes) ]
        else none)
    else if is_hextet_text (c ∷ cs)
    then some (hex_value (c ∷ cs) ∷ [])
    else none

abbrev pub is_last : List Text → Bool
is_last [] = true
is_last (_ ∷ _) = false

unfoldable pub parse_hextets : Bool → List Text → Option (List ℕ)
unfolding parse_hextet
parse_hextets allow_ipv4 [] = some []
parse_hextets allow_ipv4 (part ∷ parts) = elim (parse_hextet allow_ipv4 (is_last parts) part) [
  | none ↦ none
  | some words ↦ elim (parse_hextets allow_ipv4 parts) [
    | none ↦ none
    | some more ↦ some (words ++ more)
  ]
]

unfoldable pub parse_hextet_sequence : Text → Bool → Option (List ℕ)
unfolding parse_hextets
parse_hextet_sequence [] allow_ipv4 = some []
parse_hextet_sequence (c ∷ cs) allow_ipv4 = parse_hextets allow_ipv4 (split b':' (c ∷ cs))

-- `input.indexOf("::")`.
unfoldable pub index_of_pair : Text → Option ℕ
index_of_pair [] = none
index_of_pair (c ∷ []) = none
index_of_pair (c ∷ d ∷ cs) =
    let later = index_of_pair (d ∷ cs) in
    if (c == b':') && (d == b':')
    then some 0
    else elim later [ none ↦ none | some i ↦ some (i + 1) ]

-- The words that the bytes of an address are written from.
abbrev pub bytes_of_words : List ℕ → List ℕ
bytes_of_words [] = []
bytes_of_words (w ∷ ws) = (w / 256) ∷ (w % 256) ∷ bytes_of_words ws

-- The words left and right of the compression, with the zeros that it stands for.
unfoldable pub fill_zeros : Option (List ℕ) → Option (List ℕ) → Option (List ℕ)
fill_zeros none _ = none
fill_zeros (some left) none = none
fill_zeros (some left) (some right) =
    if leb 8 (length left + length right)
    then none
    else some (left ++ (replicate (8 - length left - length right) 0 ++ right))

abbrev pub eight_words : Option (List ℕ) → Option (List ℕ)
eight_words none = none
eight_words (some words) = if length words == 8 then some words else none

unfoldable pub parse_words : Text → Option (List ℕ)
unfolding fill_zeros
parse_words input = elim (index_of_pair input) [
  | none ↦ eight_words (parse_hextet_sequence input true)
  | some at ↦
      let left = parse_hextet_sequence (take at input) false in
      let right = parse_hextet_sequence (drop (at + 2) input) true in
      elim (index_of_pair (drop (at + 2) input)) [ some _ ↦ none | none ↦ fill_zeros left right ]
]

unfoldable pub parse_ipv6 : Text → Option (List ℕ)
parse_ipv6 input =
    if is_empty input || includes b'%' input
    then none
    else elim (parse_words input) [ none ↦ none | some words ↦ some (bytes_of_words words) ]
