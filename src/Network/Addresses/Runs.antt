-- ===== src/Network/Addresses/Runs.antt =====
-- What a run of src/server/network/addresses.ts computes with, for the tests and for the tables.
use chatwca.Prelude.Text.{
  split, trim, text_eq, join, decimal_text, hex_text, decimal_from, hex_from, hex_digit,
  hex_digit_value,
}
use chatwca.Network.Addresses.Parse.{
  parse_octet, parse_octets, parse_ipv4, parse_hextet, parse_hextets, parse_hextet_sequence,
  index_of_pair, parse_words, parse_ipv6,
}
use chatwca.Network.Addresses.Format.{
  format_ipv4, format_ipv6, hex_words, format_words, best_run, mapped_ipv4,
}
use chatwca.Network.Addresses.Literal.{parse_ip_address, is_refused, ends_with_bracket}
use chatwca.Network.Addresses.Classify.{
  matches_bytes, matches_prefix, category_in_ranges, classify_parsed_ipv4, classify_parsed_ipv6,
  category_of, classify_parsed_address, classify_ip_address,
}
use chatwca.Network.Addresses.Ranges.{ipv4_non_public_ranges, ipv6_non_public_ranges}

-- What a run of the parser, and of the classification, computes with.
unfoldable pub parsing : Unit {0}
unfolding split trim text_eq join decimal_text hex_text decimal_from hex_from hex_digit
    hex_digit_value parse_octet parse_octets parse_ipv4 parse_hextet parse_hextets
    parse_hextet_sequence index_of_pair parse_words parse_ipv6 format_ipv4 format_ipv6 hex_words
    format_words best_run mapped_ipv4 is_refused ends_with_bracket parse_ip_address
parsing = tt

unfoldable pub classifying : Unit {0}
unfolding parsing matches_bytes matches_prefix category_in_ranges classify_parsed_ipv4
    classify_parsed_ipv6 category_of classify_parsed_address classify_ip_address
    ipv4_non_public_ranges ipv6_non_public_ranges
classifying = tt
