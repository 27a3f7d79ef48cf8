-- ===== src/Network/Policy/Decision.antt =====
-- src/server/network/policy.ts, `compileDestinationPolicy`, `matches` and `decideDestination`.
use chatwca.Prelude.{
  Bool, List, Number, Option, Result, [], all, any, err, false, if◌then◌else◌, is_safe, leb, nat,
  none, not, ok, other, require, some, true, ◌&&◌, ◌==◌, ◌>>=◌, ◌>>◌, ◌||◌, ◌∷◌,
}
use chatwca.Prelude.Text.{Text, text_eq}
use chatwca.Network.Addresses.Classify.{AddressClassification}
use chatwca.Network.Policy.Hosts.{
  PolicyError, HostKind, NormalizedDestinationHost, Idna, normalize_destination_host, ends_with,
  domain, ip, invalid_port, invalid_policy,
}
use chatwca.Network.Policy.Patterns.{
  Mode, PatternKind, CompiledPattern, normalize_destination_pattern, compile_pattern, all_hosts,
  exact, subdomains, apex_and_subdomains, of_kind,
}

-- `allowedPorts`, or `allowedPortSet`, which takes its place.
pub data Ports : Type 0 where
  port_list port_set : List Number → Ports

pub record DestinationPolicyConfig : Type 0 where
  pub allowed_domain_patterns : List Text
  pub denied_domain_patterns : List Text
  pub ports : Ports

pub record CompiledDestinationPolicy : Type 0 where
  pub allowed_ports : List Number
  pub allowed : List CompiledPattern
  pub denied : List CompiledPattern

pub data Reason : Type 0 where
  allowlist explicit_deny not_allowed local_address port_not_allowed : Reason

pub record DestinationPolicyDecision : Type 0 where
  pub is_allowed : Bool
  pub reason : Reason
  pub host : NormalizedDestinationHost
  pub port : Number

-- Whether a list holds two equal elements: `new Set(list).size !== list.length`.
abbrev pub has_duplicate {ℓ} : {A : Type ℓ} → (A → A → Bool) → List A → Bool
has_duplicate same [] = false
has_duplicate same (x ∷ xs) = any (same x) xs || has_duplicate same xs

-- Equality of ports. Numbers that are no port need not be told apart: every list with one of them
-- is refused with the same error.
abbrev pub number_eq : Number → Number → Bool
number_eq (nat m) (nat n) = m == n
number_eq _ _ = false

unfoldable pub is_port : Number → Bool
is_port (nat n) = is_safe n && leb 1 n && leb n 65_535
is_port other = false

abbrev pub numbers_of : Ports → List Number
numbers_of (port_list ns) = ns
numbers_of (port_set ns) = ns

abbrev pub has_repeated_port : Ports → Bool
has_repeated_port (port_list ns) = has_duplicate number_eq ns
has_repeated_port (port_set ns) = false

abbrev pub each {ℓ κ μ} :
    {E : Type μ} {A : Type ℓ} {B : Type κ} → (A → Result E B) → List A → Result E (List B)
each f [] = ok []
each f (x ∷ xs) = elim (f x) [
  | err e ↦ err e
  | ok y ↦ elim (each f xs) [ err e ↦ err e | ok ys ↦ ok (y ∷ ys) ]
]

module _ (idna : Idna) where
  unfoldable pub normalized_unique_patterns : List Text → Result PolicyError (List CompiledPattern)
  unfolding text_eq
  normalized_unique_patterns patterns = elim (each (normalize_destination_pattern idna) patterns) [
    | err e ↦ err e
    | ok normalized ↦
        if has_duplicate text_eq normalized
        then err invalid_policy
        else each (compile_pattern idna) normalized
  ]

  unfoldable pub compile_destination_policy :
      DestinationPolicyConfig → Result PolicyError CompiledDestinationPolicy
  unfolding normalized_unique_patterns
  compile_destination_policy config = do
    require (not (has_repeated_port config.ports)) invalid_policy
    require (all is_port (numbers_of config.ports)) invalid_policy
    allowed ← normalized_unique_patterns config.allowed_domain_patterns
    denied ← normalized_unique_patterns config.denied_domain_patterns
    ok (record { allowed_ports = numbers_of config.ports; allowed = allowed; denied = denied })

abbrev pub same_kind : PatternKind → HostKind → Bool
same_kind (of_kind ip) ip = true
same_kind (of_kind domain) domain = true
same_kind _ _ = false

abbrev pub is_ip_pattern : PatternKind → Bool
is_ip_pattern (of_kind ip) = true
is_ip_pattern _ = false

abbrev pub is_exact : Mode → Bool
is_exact exact = true
is_exact _ = false

-- A domain host under a pattern for domains.
unfoldable pub matches_domain : Mode → Text → Text → Bool
matches_domain all_hosts base host = true
matches_domain exact base host = text_eq base host
matches_domain subdomains base host = ends_with (b'.' ∷ base) host
matches_domain apex_and_subdomains base host = text_eq host base || ends_with (b'.' ∷ base) host

unfoldable pub matches : CompiledPattern → NormalizedDestinationHost → Bool
matches pattern host = elim pattern.mode [
  | all_hosts ↦ true
  | mode ↦
      if is_ip_pattern pattern.kind || elim host.kind [ ip ↦ true | domain ↦ false ]
      then is_exact mode && same_kind pattern.kind host.kind && text_eq pattern.base host.host
      else matches_domain mode pattern.base host.host
]

abbrev pub is_local : Option AddressClassification → Bool
is_local none = false
is_local (some a) = not a.is_public

module _ (policy : CompiledDestinationPolicy) where
  unfoldable pub decide_reason : Number → NormalizedDestinationHost → Reason
  decide_reason port host =
      if any (λ pattern. matches pattern host) policy.denied
      then explicit_deny
      else if not (any (number_eq port) policy.allowed_ports)
      then port_not_allowed
      else if not (any (λ pattern. matches pattern host) policy.allowed)
      then not_allowed
      else if is_local host.address
      then local_address
      else allowlist

  abbrev pub is_allowlist : Reason → Bool
  is_allowlist allowlist = true
  is_allowlist _ = false

  unfoldable pub decide_destination :
      Idna → Text → Number → Result PolicyError DestinationPolicyDecision
  unfolding decide_reason
  decide_destination idna input port = if not (is_port port) then err invalid_port else do
    host ← normalize_destination_host idna input
    ok (record {
      is_allowed = is_allowlist (decide_reason port host);
      reason = decide_reason port host;
      host = host;
      port = port;
    })
