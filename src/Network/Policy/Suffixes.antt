-- ===== src/Network/Policy/Suffixes.antt =====
-- What a pattern of src/server/network/policy.ts matches among the domain names.
use chatwca.Prelude.{
  Bool, Bool-cases, [], ap, arith, false, inl, inr, ok, refl, subst, sym, true, ◌&&◌, ◌++◌, ◌||◌,
  ◌↔◌, ◌∙◌, ◌∷◌, ◌≡◌, ◌≢◌, ◌⊎◌,
}
use chatwca.Prelude.Text.{Text, text_eq}
use chatwca.Prelude.Text.Equality.{text_eq_refl, text_eq_sound, text_eq_iff}
use chatwca.Network.Policy.Hosts.{ends_with, domain, NormalizedDestinationHost, HostKind, ip, Idna}
use chatwca.Network.Policy.Patterns.{
  CompiledPattern, Mode, exact, subdomains, apex_and_subdomains, of_kind, all_hosts, star,
  compile_pattern,
}
use chatwca.Network.Policy.Based.{IsBased, compile_pattern-cases, exact-ne-all}
use chatwca.Network.Policy.Decision.{matches, matches_domain, is_exact, is_ip_pattern}

ends_with-suffix : (s t : Text) → ends_with s t ≡ true → (before : Text) × (t ≡ before ++ s)
unfolding ends_with
ends_with-suffix s [] h = ([], sym (text_eq_sound s [] h))
ends_with-suffix s (c ∷ cs) h = elim (Bool-cases (text_eq s (c ∷ cs))) [
  | inl whole ↦ ([], sym (text_eq_sound s (c ∷ cs) whole))
  | inr part ↦ let (before, e) = ends_with-suffix s cs (ground arith) in (c ∷ before, ap (◌∷◌ c) e)
]

ends_with-append : (before s : Text) → ends_with s (before ++ s) ≡ true
unfolding ends_with
ends_with-append [] [] = text_eq_refl []
ends_with-append [] (c ∷ cs) = ground (arith, text_eq_refl (c ∷ cs))
ends_with-append (c ∷ cs) s = ground (arith, ends_with-append cs s)

-- `endsWith` holds exactly of a text that is some text before the suffix.
pub ends_with_iff : (s t : Text) → (ends_with s t ≡ true) ↔ ((before : Text) × (t ≡ before ++ s))
ends_with_iff s t = (
  ends_with-suffix s t,
  λ (before, e). subst (λ x. ends_with s x ≡ true) (sym e) (ends_with-append before s),
)

-- The names that a pattern with a base stands for; a pattern of all hosts has none.
abbrev pub Names : Mode → Text → Text → Type 0
Names exact base host = base ≡ host
Names subdomains base host = (before : Text) × (host ≡ before ++ (b'.' ∷ base))
Names apex_and_subdomains base host =
    (host ≡ base) ⊎ ((before : Text) × (host ≡ before ++ (b'.' ∷ base)))
Names all_hosts base host = ⊥

-- What a compiled pattern covers, given its normalized text.
abbrev pub Covers : Text → CompiledPattern → NormalizedDestinationHost → Type 0
Covers normalized pattern host =
    (normalized ≡ star)
    ⊎ ((pattern.kind ≡ of_kind host.kind)
        × (host.kind ≡ ip → pattern.mode ≡ exact)
        × Names pattern.mode pattern.base host.host)

apex_cases :
    (base host : Text)
    → (text_eq host base || ends_with (b'.' ∷ base) host ≡ true)
      ↔ ((host ≡ base) ⊎ ((before : Text) × (host ≡ before ++ (b'.' ∷ base))))
apex_cases base host = (
  λ h. elim (Bool-cases (text_eq host base)) [
    | inl same ↦ inl (text_eq_sound host base same)
    | inr differs ↦ inr (ends_with-suffix (b'.' ∷ base) host (ground arith))
  ],
  λ c. elim c [
    | inl same ↦ ground (arith, (text_eq_iff host base).1 same)
    | inr part ↦ ground (arith, (ends_with_iff (b'.' ∷ base) host).1 part)
  ],
)

abbrev Stands : Mode → Text → HostKind → HostKind → Text → Type 0
Stands mode base kind host_kind host =
    (of_kind kind ≡ of_kind host_kind) × (host_kind ≡ ip → mode ≡ exact) × Names mode base host

domain-ne-ip : of_kind domain ≢ of_kind ip
domain-ne-ip e = ground (arith, ap is_ip_pattern e)

exact_ip_iff :
    (mode : Mode) (base host : Text)
    → ((is_exact mode && text_eq base host) ≡ true) ↔ Stands mode base ip ip host
exact_ip_iff exact base host = (
  λ h. (refl, (λ _. refl), text_eq_sound base host h),
  λ (_, _, same). (text_eq_iff base host).1 same,
)
exact_ip_iff all_hosts base host =
    (λ h. absurd (ground (arith, h)), λ (_, only, _). absurd (exact-ne-all (sym (only refl))))
exact_ip_iff subdomains base host = (
  λ h. absurd (ground (arith, h)),
  λ (_, only, _). absurd (ground (arith, ap is_exact (only refl))),
)
exact_ip_iff apex_and_subdomains base host = (
  λ h. absurd (ground (arith, h)),
  λ (_, only, _). absurd (ground (arith, ap is_exact (only refl))),
)

domain_iff :
    (mode : Mode) (base host : Text)
    → mode ≢ all_hosts
    → (matches_domain mode base host ≡ true) ↔ Stands mode base domain domain host
unfolding matches_domain
domain_iff all_hosts base host scoped = absurd (scoped refl)
domain_iff exact base host scoped = (
  λ h. (refl, (λ _. refl), text_eq_sound base host h),
  λ (_, _, same). (text_eq_iff base host).1 same,
)
domain_iff subdomains base host scoped =
    let (to, from) = ends_with_iff (b'.' ∷ base) host in
    (λ h. (refl, (λ e. absurd (domain-ne-ip (ap of_kind e))), to h), λ (_, _, part). from part)
domain_iff apex_and_subdomains base host scoped =
    let (to, from) = apex_cases base host in
    (λ h. (refl, (λ e. absurd (domain-ne-ip (ap of_kind e))), to h), λ (_, _, part). from part)

-- How a pattern with a base is compared to a host, by the kinds of the two.
abbrev is_match : Mode → Text → HostKind → HostKind → Text → Bool
is_match mode base domain domain host = matches_domain mode base host
is_match mode base ip ip host = is_exact mode && text_eq base host
is_match mode base _ _ host = false

is_match_iff :
    (mode : Mode) (base : Text) (kind host_kind : HostKind) (host : Text)
    → mode ≢ all_hosts
    → (is_match mode base kind host_kind host ≡ true) ↔ Stands mode base kind host_kind host
is_match_iff mode base domain domain host scoped = domain_iff mode base host scoped
is_match_iff mode base ip ip host scoped = exact_ip_iff mode base host
is_match_iff mode base domain ip host scoped =
    (λ h. absurd (ground (arith, h)), λ (same, _, _). absurd (domain-ne-ip same))
is_match_iff mode base ip domain host scoped =
    (λ h. absurd (ground (arith, h)), λ (same, _, _). absurd (domain-ne-ip (sym same)))

matches-is_match :
    (mode : Mode) (kind host_kind : HostKind) (pattern : CompiledPattern)
    (host : NormalizedDestinationHost)
    → mode ≢ all_hosts
    → matches
        (record pattern { mode = mode; kind = of_kind kind })
        (record host { kind = host_kind })
      ≡ is_match mode pattern.base kind host_kind host.host
unfolding matches
matches-is_match all_hosts kind host_kind pattern host scoped = absurd (scoped refl)
matches-is_match exact domain domain pattern host scoped = refl
matches-is_match exact ip ip pattern host scoped = refl
matches-is_match exact domain ip pattern host scoped = refl
matches-is_match exact ip domain pattern host scoped = refl
matches-is_match subdomains domain domain pattern host scoped = refl
matches-is_match subdomains ip ip pattern host scoped = refl
matches-is_match subdomains domain ip pattern host scoped = refl
matches-is_match subdomains ip domain pattern host scoped = refl
matches-is_match apex_and_subdomains domain domain pattern host scoped = refl
matches-is_match apex_and_subdomains ip ip pattern host scoped = refl
matches-is_match apex_and_subdomains domain ip pattern host scoped = refl
matches-is_match apex_and_subdomains ip domain pattern host scoped = refl

matches-all_hosts :
    (mode : Mode) (pattern : CompiledPattern) (host : NormalizedDestinationHost)
    → mode ≡ all_hosts
    → matches (record pattern { mode = mode }) host ≡ true
unfolding matches
matches-all_hosts mode pattern host e =
    subst (λ m. matches (record pattern { mode = m }) host ≡ true) (sym e) refl

based_iff :
    (pattern : CompiledPattern) (host : NormalizedDestinationHost) (based : IsBased pattern)
    → (matches pattern host ≡ true) ↔ (
        (pattern.kind ≡ of_kind host.kind)
        × (host.kind ≡ ip → pattern.mode ≡ exact)
        × Names pattern.mode pattern.base host.host)
based_iff pattern host based =
    subst
      (λ k. (matches (record pattern { kind = k }) host ≡ true) ↔ (
        (k ≡ of_kind host.kind)
        × (host.kind ≡ ip → pattern.mode ≡ exact)
        × Names pattern.mode pattern.base host.host))
      (sym based.of_host)
      (let same = matches-is_match pattern.mode based.kind host.kind pattern host based.scoped in
        let (to, from) =
          is_match_iff pattern.mode pattern.base based.kind host.kind host.host based.scoped in
        (λ h. to (sym same ∙ h), λ c. same ∙ from c))

-- A pattern that is compiled from a normalized text matches a host exactly when the text is `*`, or
-- the pattern's base is of the host's kind, the mode is exact where the host is an IP address, and
-- the mode names the host: an exact pattern its base, a pattern of subdomains what ends in a dot and
-- its base, a pattern of the apex and its subdomains both.
pub matches_iff :
    (idna : Idna) (normalized : Text) (pattern : CompiledPattern) (host : NormalizedDestinationHost)
    → compile_pattern idna normalized ≡ ok pattern
    → (matches pattern host ≡ true) ↔ Covers normalized pattern host
matches_iff idna normalized pattern host compiled =
    elim (compile_pattern-cases idna normalized pattern compiled) [
      | inl (whole, mode) ↦ (λ h. inl whole, λ c. matches-all_hosts pattern.mode pattern host mode)
      | inr (scoped, based) ↦
          let (to, from) = based_iff pattern host based in
          (
            λ h. inr (to h),
            λ c. elim c [ inl whole ↦ absurd (scoped whole) | inr names ↦ from names ],
          )
    ]
