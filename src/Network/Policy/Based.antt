-- ===== src/Network/Policy/Based.antt =====
-- The base of a pattern that `compilePattern` of src/server/network/policy.ts gives.
use chatwca.Prelude.{
  Bool, Result, ap, arith, err, false, if_holds, inl, inr, ok, refl, subst, sym, true, ◌>>=◌, ◌≡◌,
  ◌≢◌, ◌⊎◌,
}
use chatwca.Prelude.Text.{Text, text_eq, codes, starts_with}
use chatwca.Prelude.Text.Equality.{text_eq_sound, text_eq_iff}
use chatwca.Network.Policy.Hosts.{
  NormalizedDestinationHost, HostKind, Idna, PolicyError, normalize_destination_host,
}
use chatwca.Network.Policy.Patterns.{
  CompiledPattern, Mode, exact, of_kind, all_hosts, is_scoped, scope_of, star, compile_pattern,
  compile_scoped,
}
use chatwca.Network.Policy.Decision.{is_exact}

-- A pattern that is compiled from another text than `*` has a base, of the kind of a host.
pub record IsBased (pattern : CompiledPattern) : Type 0 where
  pub kind : HostKind
  pub of_host : pattern.kind ≡ of_kind kind
  pub scoped : pattern.mode ≢ all_hosts

pub exact-ne-all : exact ≢ all_hosts
exact-ne-all e = ground (arith, ap is_exact e)

scope_of-ne-all : (t : Text) → (scope_of t).0 ≢ all_hosts
unfolding scope_of
scope_of-ne-all t =
    if_holds (λ (s : Mode × Text). s.0 ≢ all_hosts) (starts_with (codes "**.") t)
      (λ _ e. ground (arith, ap is_scoped e))
      (λ _.
        if_holds (λ (s : Mode × Text). s.0 ≢ all_hosts) (starts_with (codes "*.") t)
          (λ _ e. ground (arith, ap is_scoped e)) (λ _. exact-ne-all))

abbrev ok_or : CompiledPattern → Result PolicyError CompiledPattern → CompiledPattern
ok_or pattern (ok found) = found
ok_or pattern (err thrown) = pattern

abbrev is_ok : Result PolicyError CompiledPattern → Bool
is_ok (ok found) = true
is_ok (err thrown) = false

compiled-IsBased :
    (normalized : Text) (mode : Mode) (host : Result PolicyError NormalizedDestinationHost)
    (pattern : CompiledPattern)
    → mode ≢ all_hosts
    → (host >>= λ h.
        ok (record { normalized = normalized; mode = mode; base = h.host; kind = of_kind h.kind }))
      ≡ ok pattern
    → IsBased pattern
compiled-IsBased normalized mode (err thrown) pattern scoped e = absurd (ground (arith, ap is_ok e))
compiled-IsBased normalized mode (ok h) pattern scoped e =
    subst IsBased (ap (ok_or pattern) e) (record { kind = h.kind; of_host = refl; scoped = scoped })

-- `*` alone covers every host, and every other pattern is compiled with a base.
pub compile_pattern-cases :
    (idna : Idna) (normalized : Text) (pattern : CompiledPattern)
    → compile_pattern idna normalized ≡ ok pattern
    → ((normalized ≡ star) × (pattern.mode ≡ all_hosts)) ⊎ ((normalized ≢ star) × IsBased pattern)
unfolding compile_pattern compile_scoped
compile_pattern-cases idna normalized pattern =
    if_holds
      (λ (r : Result PolicyError CompiledPattern).
        r ≡ ok pattern
        → ((normalized ≡ star) × (pattern.mode ≡ all_hosts))
          ⊎ ((normalized ≢ star) × IsBased pattern))
      (text_eq normalized star)
      (λ same e. inl (text_eq_sound normalized star same, sym (ap (λ r. (ok_or pattern r).mode) e)))
      (λ differs e. inr (
        (λ same. ground (arith, differs, (text_eq_iff normalized star).1 same)),
        compiled-IsBased normalized (scope_of normalized).0
            (normalize_destination_host idna (scope_of normalized).1) pattern
            (scope_of-ne-all normalized) e,
      ))
