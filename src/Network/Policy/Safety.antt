-- ===== src/Network/Policy/Safety.antt =====
-- What `decideDestination` of src/server/network/policy.ts lets through.
use chatwca.Prelude.{
  All, Number, [], any, ap, arith, false, ok, refl, replicate, some, true, ℕ, ◌++◌, ◌==◌, ◌↔◌, ◌∙◌,
  ◌∷◌, ◌≡◌, ◌≢◌,
}
use chatwca.Prelude.Text.{Text, text_eq, trim}
use chatwca.Prelude.Text.Equality.{text_eq_sound}
use chatwca.Network.Addresses.Octets.{IsByte}
use chatwca.Network.Addresses.Scopes.{ipv4_scope, category_of-mapped}
use chatwca.Network.Addresses.Classify.{classify_parsed_address, category_of, is_public_category}
use chatwca.Network.Addresses.Ranges.{Category, public}
use chatwca.Network.Addresses.Literal.{
  ParsedIpAddress, parse_ip_address, is_refused, ends_with_bracket, from_ipv6,
}
use chatwca.Network.Policy.Hosts.{
  Idna, ip, last_is, NormalizedDestinationHost, normalize_destination_host, ip_host,
  normalize_trimmed,
}
use chatwca.Network.Policy.Decision.{
  CompiledDestinationPolicy, DestinationPolicyDecision, decide_destination, decide_reason, matches,
  number_eq, is_local, is_port, is_allowlist,
}

last_is-bracket : (t : Text) → last_is (λ c. c == b']') t ≡ ends_with_bracket t
unfolding ends_with_bracket
last_is-bracket [] = refl
last_is-bracket (c ∷ []) = refl
last_is-bracket (c ∷ d ∷ cs) = last_is-bracket (d ∷ cs)

module _ (idna : Idna) (policy : CompiledDestinationPolicy) where
  decide-cases :
      (input : Text) (port : Number) (d : DestinationPolicyDecision)
      → decide_destination policy idna input port ≡ ok d
      → (is_port port ≡ true)
        × (normalize_destination_host idna input ≡ ok d.host)
        × (d.reason ≡ decide_reason policy port d.host)
        × (d.is_allowed ≡ is_allowlist policy (decide_reason policy port d.host))
  unfolding decide_destination
  decide-cases input port d h = ground (arith, h)

  -- A decision allows a destination exactly when no pattern that is denied matches its host, its
  -- port is one of the policy's, a pattern that is allowed matches the host, and the host is no IP
  -- address that is not public.
  pub decide_destination_allows :
      (input : Text) (port : Number) (d : DestinationPolicyDecision)
      → decide_destination policy idna input port ≡ ok d
      → (d.is_allowed ≡ true) ↔ (
          (any (λ pattern. matches pattern d.host) policy.denied ≡ false)
          × (any (number_eq port) policy.allowed_ports ≡ true)
          × (any (λ pattern. matches pattern d.host) policy.allowed ≡ true)
          × (is_local d.host.address ≡ false))
  unfolding decide_reason
  decide_destination_allows input port d h = ground (arith, decide-cases input port d h)

  literal-plain :
      (t : Text) (parsed : ParsedIpAddress)
      → parse_ip_address t ≡ some parsed
      → is_refused t ≡ false
  unfolding parse_ip_address
  literal-plain t parsed h = ground (arith, h)

  literal-trimmed : (t : Text) → is_refused t ≡ false → text_eq (trim t) t ≡ true
  unfolding is_refused
  literal-trimmed t h = ground (arith, h)

  normalize_trimmed-literal :
      (t : Text) (parsed : ParsedIpAddress)
      → parse_ip_address t ≡ some parsed
      → is_refused t ≡ false
      → normalize_trimmed idna t ≡ ip_host parsed
  unfolding is_refused normalize_trimmed
  normalize_trimmed-literal [] parsed h plain = ground arith
  normalize_trimmed-literal (c ∷ cs) parsed h plain = ground (arith, h, last_is-bracket (c ∷ cs))

  normalize-literal :
      (t : Text) (parsed : ParsedIpAddress)
      → parse_ip_address t ≡ some parsed
      → normalize_destination_host idna t ≡ ip_host parsed
  unfolding normalize_destination_host
  normalize-literal t parsed h =
      let plain = literal-plain t parsed h in
      ap (normalize_trimmed idna) (text_eq_sound (trim t) t (literal-trimmed t plain))
      ∙ normalize_trimmed-literal t parsed h plain

  abbrev host_of : ParsedIpAddress → Category → NormalizedDestinationHost
  host_of parsed category = record {
    host = parsed.address;
    kind = ip;
    family = some parsed.family;
    address =
        some (record {
          parsed = parsed;
          is_public = is_public_category category;
          category = category;
        });
  }

  ip_host-classified :
      (parsed : ParsedIpAddress) (category : Category)
      → category_of parsed ≡ ok category
      → ip_host parsed ≡ ok (host_of parsed category)
  unfolding ip_host classify_parsed_address
  ip_host-classified parsed category found = ground (arith, found)

  decide-host :
      (input : Text) (port : Number) (host : NormalizedDestinationHost)
      → is_port port ≡ true
      → normalize_destination_host idna input ≡ ok host
      → (d : DestinationPolicyDecision) × (decide_destination policy idna input port ≡ ok d)
        × (d.host ≡ host)
  unfolding decide_destination
  decide-host input port host valid normal = (
    record {
      is_allowed = is_allowlist policy (decide_reason policy port host);
      reason = decide_reason policy port host;
      host = host;
      port = port;
    },
    ground (arith, valid, normal),
    refl,
  )

  not_public : (category : Category) → category ≢ public → is_public_category category ≡ false
  not_public category c = ground (arith, c)

  -- On an IP literal whose address has another category than public, and any port that is valid,
  -- every policy decides, and refuses.
  pub literal-refused :
      (t : Text) (parsed : ParsedIpAddress) (category : Category) (port : Number)
      → parse_ip_address t ≡ some parsed
      → category_of parsed ≡ ok category
      → category ≢ public
      → is_port port ≡ true
      → (d : DestinationPolicyDecision) × (decide_destination policy idna t port ≡ ok d)
        × (d.is_allowed ≡ false)
  literal-refused t parsed category port h found c valid =
      let normal = normalize-literal t parsed h ∙ ip_host-classified parsed category found in
      let (d, decided, same) = decide-host t port (host_of parsed category) valid normal in
      (
        d,
        decided,
        ground (arith, same, not_public category c, decide_destination_allows t port d decided),
      )

  -- On an IP literal that maps an IPv4 address whose scope is another than public, and any port that
  -- is valid, every policy decides, and refuses.
  pub mapped-refused :
      (t : Text) (a b c d : ℕ) (port : Number)
      → All IsByte (a ∷ b ∷ c ∷ d ∷ [])
      → parse_ip_address t ≡ some (from_ipv6 (replicate 10 0 ++ (255 ∷ 255 ∷ a ∷ b ∷ c ∷ d ∷ [])))
      → ipv4_scope a b c d ≢ public
      → is_port port ≡ true
      → (decision : DestinationPolicyDecision) × (decide_destination policy idna t port
          ≡ ok decision)
        × (decision.is_allowed ≡ false)
  mapped-refused t a b c d port good h scope valid =
      literal-refused t _ (ipv4_scope a b c d) port h (category_of-mapped a b c d good) scope valid
