-- ===== src/Network/Policy/Hosts.antt =====
-- src/server/network/policy.ts, `normalizeDestinationHost` and its helpers.
use chatwca.Prelude.{
  Bool, Option, Result, [], all, any, drop, err, false, if◌then◌else◌, leb, length, map, none, not,
  ok, some, ℕ, ◌&&◌, ◌+◌, ◌==◌, ◌||◌, ◌∷◌,
}
use chatwca.Prelude.Text.{
  starts_with, Text, text_eq, codes, trim, split, is_digit, is_hex_digit, includes,
}
use chatwca.Network.Addresses.Parse.{is_empty}
use chatwca.Network.Addresses.Literal.{Family, v4, v6, ParsedIpAddress, parse_ip_address}
use chatwca.Network.Addresses.Classify.{
  AddressClassification, InternalError, classify_parsed_address,
}

-- `DestinationPolicyError` by its code, and the errors of the classification, which are none.
pub data PolicyError : Type 0 where
  invalid_host invalid_pattern invalid_port invalid_policy : PolicyError
  unclassified : InternalError → PolicyError

pub data HostKind : Type 0 where
  domain ip : HostKind

pub record NormalizedDestinationHost : Type 0 where
  pub host : Text
  pub kind : HostKind
  pub family : Option Family
  pub address : Option AddressClassification

-- `domainToASCII` (`none` where it throws) and `domainToUnicode` of node:url.
pub record Idna : Type 0 where
  pub to_ascii : Text → Option Text
  pub to_unicode : Text → Text

-- `text.endsWith(suffix)`.
unfoldable pub ends_with : Text → Text → Bool
ends_with suffix [] = text_eq suffix []
ends_with suffix (c ∷ cs) = text_eq suffix (c ∷ cs) || ends_with suffix cs

-- `text.slice(0, -1)`.
abbrev pub without_last : Text → Text
without_last [] = []
without_last (c ∷ []) = []
without_last (c ∷ d ∷ cs) = c ∷ without_last (d ∷ cs)

-- `toLowerCase` on the ASCII text that `domainToASCII` returns.
abbrev pub lower : ℕ → ℕ
lower c = if leb b'A' c && leb c b'Z' then c + 32 else c

abbrev pub is_label_edge : ℕ → Bool
is_label_edge c = (leb b'a' c && leb c b'z') || is_digit c

abbrev pub is_label_char : ℕ → Bool
is_label_char c = is_label_edge c || c == b'-'

abbrev pub first_is : (ℕ → Bool) → Text → Bool
first_is p [] = false
first_is p (c ∷ cs) = p c

abbrev pub last_is : (ℕ → Bool) → Text → Bool
last_is p [] = false
last_is p (c ∷ []) = p c
last_is p (c ∷ d ∷ cs) = last_is p (d ∷ cs)

-- The tests of a label by length and by `/^[a-z0-9](?:[a-z0-9-]*[a-z0-9])?$/`.
unfoldable pub is_label : Text → Bool
is_label t =
    not (is_empty t)
    && leb (length t) 63
    && all is_label_char t
    && first_is is_label_edge t
    && last_is is_label_edge t

-- `/^(?:[0-9]+|0[xX][0-9a-fA-F]+)$/`.
unfoldable pub is_numeric_label : Text → Bool
is_numeric_label [] = false
is_numeric_label (c ∷ []) = is_digit c
is_numeric_label (c ∷ x ∷ cs) =
    all is_digit (c ∷ x ∷ cs)
    || ((c == b'0') && ((x == b'x') || (x == b'X')) && not (is_empty cs) && all is_hex_digit cs)

unfoldable pub is_ambiguous_numeric_host : Text → Bool
unfolding split
is_ambiguous_numeric_host host = all is_numeric_label (split b'.' host)

-- What is refused in a host that is no IP literal.
abbrev pub is_refused_char : ℕ → Bool
is_refused_char c =
    any (λ r. r == c) (b':' ∷ b'/' ∷ b'?' ∷ b'#' ∷ b'@' ∷ b'%' ∷ 0x5c ∷ 0x7f ∷ []) || leb c 0x20

unfoldable pub ip_host : ParsedIpAddress → Result PolicyError NormalizedDestinationHost
ip_host parsed = elim (classify_parsed_address parsed) [
  | err e ↦ err (unclassified e)
  | ok address ↦ ok (record {
    host = parsed.address;
    kind = ip;
    family = some parsed.family;
    address = some address;
  })
]

unfoldable pub bracketed_host : Text → Result PolicyError NormalizedDestinationHost
bracketed_host host =
    let literal = without_last (drop 1 host) in
    if not (first_is (λ c. c == b'[') host && last_is (λ c. c == b']') host)
      || not (includes b':' literal)
    then err invalid_host
    else elim (parse_ip_address literal) [
      | none ↦ err invalid_host
      | some parsed ↦ elim parsed.family [ v4 ↦ err invalid_host | v6 ↦ ip_host parsed ]
    ]

module _ (idna : Idna) where
  -- `validateAsciiDomain` of one label.
  unfoldable pub is_valid_label : Text → Bool
  unfolding is_label
  is_valid_label label =
      is_label label
      && not (starts_with (codes "xn--") label && text_eq (idna.to_unicode label) label)

  unfoldable pub validate_ascii_domain : Text → Bool
  unfolding is_valid_label split
  validate_ascii_domain ascii =
      not (is_empty ascii) && leb (length ascii) 253 && all is_valid_label (split b'.' ascii)

  abbrev pub domain_of : Text → NormalizedDestinationHost
  domain_of ascii = record { host = ascii; kind = domain; family = none; address = none }

  abbrev pub without_dot : Text → Text
  without_dot host = if last_is (λ c. c == b'.') host then without_last host else host

  -- From the end of the IP literals on.
  unfoldable pub domain_host : Text → Result PolicyError NormalizedDestinationHost
  domain_host host =
      let name = without_dot host in
      if any is_refused_char host
        || is_empty name
        || last_is (λ c. c == b'.') name
        || is_ambiguous_numeric_host name
      then err invalid_host
      else elim (idna.to_ascii name) [
        | none ↦ err invalid_host
        | some converted ↦
            let ascii = map lower converted in
            if not (validate_ascii_domain ascii) || is_ambiguous_numeric_host ascii
            then err invalid_host
            else ok (domain_of ascii)
      ]

  unfoldable pub normalize_trimmed : Text → Result PolicyError NormalizedDestinationHost
  normalize_trimmed host =
      if is_empty host
      then err invalid_host
      else if first_is (λ c. c == b'[') host || last_is (λ c. c == b']') host
      then bracketed_host host
      else elim (parse_ip_address host) [ some parsed ↦ ip_host parsed | none ↦ domain_host host ]

  unfoldable pub normalize_destination_host : Text → Result PolicyError NormalizedDestinationHost
  unfolding trim
  normalize_destination_host input = normalize_trimmed (trim input)
