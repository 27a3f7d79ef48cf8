-- ===== src/Network/Policy/Tests.antt =====
-- Runs of src/server/network/policy.ts with an identity for the conversions of node:url, as they are
-- on ASCII names.
use chatwca.Prelude.{
  List, Option, Result, [], any, arith, err, false, nat, none, ok, refl, some, true, ℕ, ◌↔◌, ◌∷◌,
  ◌≡◌,
}
use chatwca.Prelude.Text.{Text, codes}
use chatwca.Network.Policy.Runs.{deciding}
use chatwca.Network.Addresses.Ranges.{private}
use chatwca.Network.Addresses.Literal.{from_ipv4}
use chatwca.Network.Policy.Hosts.{
  PolicyError, Idna, NormalizedDestinationHost, domain, invalid_host, normalize_destination_host,
}
use chatwca.Network.Policy.Patterns.{CompiledPattern, apex_and_subdomains, of_kind}
use chatwca.Network.Policy.Decision.{
  CompiledDestinationPolicy, DestinationPolicyConfig, DestinationPolicyDecision, Reason,
  decide_destination, compile_destination_policy, matches, number_eq, is_local, port_list,
  allowlist, explicit_deny, port_not_allowed,
}
use chatwca.Network.Policy.Suffixes.{Covers, matches_iff}
use chatwca.Network.Policy.Safety.{decide_destination_allows, literal-refused, mapped-refused}

abbrev ascii : Idna
ascii = record { to_ascii = λ t. some t; to_unicode = λ t. t }

abbrev config : DestinationPolicyConfig
config = record {
  allowed_domain_patterns = codes "**.Example.com" ∷ codes "10.0.0.1" ∷ [];
  denied_domain_patterns = codes "bad.example.com" ∷ [];
  ports = port_list (nat 443 ∷ []);
}

abbrev no_policy : CompiledDestinationPolicy
no_policy = record { allowed_ports = []; allowed = []; denied = [] }

abbrev or_none : Result PolicyError CompiledDestinationPolicy → CompiledDestinationPolicy
or_none (ok p) = p
or_none (err e) = no_policy

abbrev policy : CompiledDestinationPolicy
policy = or_none (compile_destination_policy ascii config)

abbrev reason_of : Result PolicyError DestinationPolicyDecision → Option Reason
reason_of (ok d) = some d.reason
reason_of (err e) = none

abbrev reason_for : Text → ℕ → Option Reason
reason_for host port = reason_of (decide_destination policy ascii host (nat port))

subdomain_allowed : reason_for (codes "www.EXAMPLE.com.") 443 ≡ some allowlist
unfolding deciding
subdomain_allowed = refl

denied_first : reason_for (codes "bad.example.com") 80 ≡ some explicit_deny
unfolding deciding
denied_first = refl

other_port : reason_for (codes "example.com") 80 ≡ some port_not_allowed
unfolding deciding
other_port = refl

numeric_host : normalize_destination_host ascii (codes "0x7f.1") ≡ err invalid_host
unfolding deciding
numeric_host = refl

abbrev pattern_of : CompiledPattern
pattern_of = record {
  normalized = codes "**.example.com";
  mode = apex_and_subdomains;
  base = codes "example.com";
  kind = of_kind domain;
}

abbrev site : NormalizedDestinationHost
site = record { host = codes "www.example.com"; kind = domain; family = none; address = none }

matches_iff_example :
    (matches pattern_of site ≡ true) ↔ Covers (codes "**.example.com") pattern_of site
unfolding deciding
matches_iff_example = matches_iff ascii (codes "**.example.com") pattern_of site refl

abbrev allowing : DestinationPolicyDecision
allowing = record { is_allowed = true; reason = allowlist; host = site; port = nat 443 }

decide_destination_allows_example : (true ≡ true) ↔ (
    (any (λ pattern. matches pattern site) policy.denied ≡ false)
    × (any (number_eq (nat 443)) policy.allowed_ports ≡ true)
    × (any (λ pattern. matches pattern site) policy.allowed ≡ true)
    × (is_local none ≡ false))
unfolding deciding
decide_destination_allows_example =
    decide_destination_allows ascii policy (codes "www.example.com") (nat 443) allowing refl

abbrev own : List ℕ
own = 10 ∷ 0 ∷ 0 ∷ 1 ∷ []

literal-refused_example :
    (d : DestinationPolicyDecision) × (decide_destination policy ascii (codes "10.0.0.1") (nat 443)
      ≡ ok d)
    × (d.is_allowed ≡ false)
unfolding deciding
literal-refused_example =
    literal-refused ascii policy (codes "10.0.0.1") (from_ipv4 own) private (nat 443) refl refl
      (ground arith) refl

mapped-refused_example :
    (d : DestinationPolicyDecision) × (decide_destination policy ascii
        (codes "::FFFF:10.0.0.1")
        (nat 443)
      ≡ ok d)
    × (d.is_allowed ≡ false)
unfolding deciding
mapped-refused_example =
    mapped-refused ascii policy (codes "::FFFF:10.0.0.1") 10 0 0 1 (nat 443) (ground arith) refl
      (ground arith) refl
