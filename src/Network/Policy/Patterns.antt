-- ===== src/Network/Policy/Patterns.antt =====
-- src/server/network/policy.ts, `normalizeDestinationPattern` and `compilePattern`.
use chatwca.Prelude.{
  Bool, Result, [], drop, err, false, if◌then◌else◌, ok, true, ◌&&◌, ◌++◌, ◌>>=◌, ◌||◌,
}
use chatwca.Prelude.Text.{starts_with, Text, text_eq, codes, trim, includes}
use chatwca.Network.Addresses.Parse.{is_empty}
use chatwca.Network.Policy.Hosts.{
  PolicyError, HostKind, Idna, normalize_destination_host, domain, ip, invalid_pattern,
  unclassified,
}

pub data Mode : Type 0 where
  all_hosts exact subdomains apex_and_subdomains : Mode

pub data PatternKind : Type 0 where
  any_host : PatternKind
  of_kind : HostKind → PatternKind

pub record CompiledPattern : Type 0 where
  pub normalized : Text
  pub mode : Mode
  pub base : Text
  pub kind : PatternKind

-- The mode of a pattern's prefix, and what follows the prefix.
unfoldable pub scope_of : Text → Mode × Text
scope_of t =
    if starts_with (codes "**.") t
    then (apex_and_subdomains, drop 3 t)
    else if starts_with (codes "*.") t
    then (subdomains, drop 2 t)
    else (exact, t)

abbrev pub prefix_of : Mode → Text
prefix_of apex_and_subdomains = codes "**."
prefix_of subdomains = codes "*."
prefix_of _ = []

abbrev pub is_scoped : Mode → Bool
is_scoped apex_and_subdomains = true
is_scoped subdomains = true
is_scoped _ = false

abbrev pub is_ip : HostKind → Bool
is_ip ip = true
is_ip domain = false

abbrev pub star : Text
star = codes "*"

-- `error instanceof DestinationPolicyError`, thrown again as an invalid pattern.
abbrev pub as_pattern_error : PolicyError → PolicyError
as_pattern_error (unclassified e) = unclassified e
as_pattern_error _ = invalid_pattern

module _ (idna : Idna) where
  unfoldable pub normalize_scoped : Mode × Text → Result PolicyError Text
  normalize_scoped (mode, value) =
      if includes b'*' value
      then err invalid_pattern
      else elim (normalize_destination_host idna value) [
        | err e ↦ err (as_pattern_error e)
        | ok h ↦
            if is_scoped mode && is_ip h.kind
            then err invalid_pattern
            else ok (prefix_of mode ++ h.host)
      ]

  unfoldable pub normalize_destination_pattern : Text → Result PolicyError Text
  unfolding trim text_eq
  normalize_destination_pattern input =
      let trimmed = trim input in
      if text_eq trimmed star
      then ok trimmed
      else if is_empty trimmed || includes b'[' trimmed || includes b']' trimmed
      then err invalid_pattern
      else normalize_scoped (scope_of trimmed)

  unfoldable pub compile_scoped : Text → Mode × Text → Result PolicyError CompiledPattern
  compile_scoped normalized (mode, base) = do
    h ← normalize_destination_host idna base
    ok (record { normalized = normalized; mode = mode; base = h.host; kind = of_kind h.kind })

  unfoldable pub compile_pattern : Text → Result PolicyError CompiledPattern
  unfolding text_eq
  compile_pattern normalized =
      if text_eq normalized star
      then ok (record { normalized = normalized; mode = all_hosts; base = []; kind = any_host })
      else compile_scoped normalized (scope_of normalized)
