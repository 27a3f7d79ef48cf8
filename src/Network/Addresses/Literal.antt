-- ===== src/Network/Addresses/Literal.antt =====
-- src/server/network/addresses.ts, `ParsedIpAddress` and `parseIpAddress`.
use chatwca.Prelude.{
  Bool, List, Option, [], false, if◌then◌else◌, none, not, some, ℕ, ◌==◌, ◌||◌, ◌∷◌,
}
use chatwca.Prelude.Text.{Text, text_eq, trim}
use chatwca.Network.Addresses.Parse.{is_empty, parse_ipv4, parse_ipv6}
use chatwca.Network.Addresses.Format.{format_ipv4, format_ipv6, mapped_ipv4}

pub data Family : Type 0 where
  v4 v6 : Family

pub record ParsedIpAddress : Type 0 where
  pub address : Text
  pub family : Family
  pub bytes : List ℕ
  pub mapped : Option Text

abbrev pub starts_with_bracket : Text → Bool
starts_with_bracket [] = false
starts_with_bracket (c ∷ cs) = c == b'['

unfoldable pub ends_with_bracket : Text → Bool
ends_with_bracket [] = false
ends_with_bracket (c ∷ []) = c == b']'
ends_with_bracket (c ∷ d ∷ cs) = ends_with_bracket (d ∷ cs)

abbrev pub from_ipv4 : List ℕ → ParsedIpAddress
from_ipv4 bytes = record { address = format_ipv4 bytes; family = v4; bytes = bytes; mapped = none }

abbrev pub from_ipv6 : List ℕ → ParsedIpAddress
from_ipv6 bytes = record {
  address = format_ipv6 bytes;
  family = v6;
  bytes = bytes;
  mapped = elim (mapped_ipv4 bytes) [ none ↦ none | some tail ↦ some (format_ipv4 tail) ];
}

-- The first test: nothing is parsed that is empty, padded or bracketed.
unfoldable pub is_refused : Text → Bool
is_refused input =
    is_empty input
    || not (text_eq (trim input) input)
    || starts_with_bracket input
    || ends_with_bracket input

unfoldable pub parse_ip_address : Text → Option ParsedIpAddress
parse_ip_address input = if is_refused input then none else elim (parse_ipv4 input) [
  | some bytes ↦ some (from_ipv4 bytes)
  | none ↦ elim (parse_ipv6 input) [ some bytes ↦ some (from_ipv6 bytes) | none ↦ none ]
]
