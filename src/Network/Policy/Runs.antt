-- ===== src/Network/Policy/Runs.antt =====
-- What a run of src/server/network/policy.ts computes with.
use chatwca.Network.Addresses.Runs.{classifying}
use chatwca.Network.Policy.Hosts.{
  ends_with, is_label, is_numeric_label, is_ambiguous_numeric_host, ip_host, bracketed_host,
  is_valid_label, validate_ascii_domain, domain_host, normalize_trimmed, normalize_destination_host,
}
use chatwca.Network.Policy.Patterns.{
  scope_of, normalize_scoped, normalize_destination_pattern, compile_scoped, compile_pattern,
}
use chatwca.Network.Policy.Decision.{
  is_port, normalized_unique_patterns, compile_destination_policy, matches_domain, matches,
  decide_reason, decide_destination,
}

unfoldable pub deciding : Unit {0}
unfolding classifying ends_with is_label is_numeric_label is_ambiguous_numeric_host ip_host
    bracketed_host is_valid_label validate_ascii_domain domain_host normalize_trimmed
    normalize_destination_host scope_of normalize_scoped normalize_destination_pattern
    compile_scoped compile_pattern is_port normalized_unique_patterns compile_destination_policy
    matches_domain matches decide_reason decide_destination
deciding = tt
