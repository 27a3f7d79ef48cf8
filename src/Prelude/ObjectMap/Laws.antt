-- ===== src/Prelude/ObjectMap/Laws.antt =====
-- What is found in a map after a change, and what holds of every entry.
use mathlib.Core.Option.{some-injective}
use chatwca.Prelude.{
  Bool, [], all, arith, false, if_holds, if◌then◌else◌, none, not, refl, some, subst, sym, ◌∷◌, ◌≡◌,
}
use chatwca.Prelude.Text.{Text, text_eq}
use chatwca.Prelude.Text.Equality.{text_eq_iff}
use chatwca.Prelude.ObjectMap.{ObjectMap, lookup, put, keep_entries, without, map_values}

module _ {ℓ} {V : Type ℓ} where
  pub lookup-put :
      (j k : Text) (v : V) (m : ObjectMap V)
      → lookup j (put k v m) ≡ (if text_eq k j then some v else lookup j m)
  unfolding lookup put
  lookup-put j k v [] = refl
  lookup-put j k v (e ∷ es) =
      ground (arith, lookup-put j k v es, text_eq_iff e.key k, text_eq_iff e.key j, text_eq_iff k j)

  pub lookup-without :
      (j k : Text) (m : ObjectMap V)
      → lookup j (without k m) ≡ (if text_eq k j then none else lookup j m)
  unfolding lookup keep_entries
  lookup-without j k [] = ground arith
  lookup-without j k (e ∷ es) =
      ground
        (arith, lookup-without j k es, text_eq_iff e.key k, text_eq_iff e.key j, text_eq_iff k j)

module _ {ℓ κ} {V : Type ℓ} (P : Text → V → Type κ) where
  abbrev pub Every : ObjectMap V → Type κ
  Every [] = Unit
  Every (e ∷ es) = P e.key e.value × Every es

  pub Every-put : (k : Text) (v : V) (m : ObjectMap V) → P k v → Every m → Every (put k v m)
  unfolding put
  Every-put k v [] h all = (h, tt)
  Every-put k v (e ∷ es) h (here, all) =
      if_holds Every (text_eq e.key k)
        (λ same. (subst (λ x. P x v) (sym ((text_eq_iff e.key k).0 same)) h, all))
        (λ differs. (here, Every-put k v es h all))

  pub Every-keep :
      (test : Text → V → Bool) (m : ObjectMap V) → Every m → Every (keep_entries test m)
  unfolding keep_entries
  Every-keep test [] all = tt
  Every-keep test (e ∷ es) (here, all) =
      if_holds Every (test e.key e.value) (λ kept. (here, Every-keep test es all))
        (λ dropped. Every-keep test es all)

  pub Every-map :
      (change : Text → V → V) (m : ObjectMap V)
      → ((k : Text) (v : V) → P k v → P k (change k v))
      → Every m
      → Every (map_values change m)
  unfolding map_values
  Every-map change [] h all = tt
  Every-map change (e ∷ es) h (here, all) = (h e.key e.value here, Every-map change es h all)

  pub Every-lookup : (k : Text) (v : V) (m : ObjectMap V) → Every m → lookup k m ≡ some v → P k v
  unfolding lookup
  Every-lookup k v [] all h = ground arith
  Every-lookup k v (e ∷ es) (here, all) h =
      if_holds (λ found. found ≡ some v → P k v) (text_eq e.key k)
        (λ same found.
          subst (λ x. P x v) ((text_eq_iff e.key k).0 same)
            (subst (P e.key) (some-injective e.value v found) here))
        (λ differs found. Every-lookup k v es all found) h

module _ {ℓ κ μ} {V : Type ℓ} (P : Text → V → Type κ) (Q : Text → V → Type μ) where
  pub Every-imp : (m : ObjectMap V) → ((k : Text) (v : V) → P k v → Q k v) → Every P m → Every Q m
  Every-imp [] h all = tt
  Every-imp (e ∷ es) h (here, all) = (h e.key e.value here, Every-imp es h all)

  -- A change of the property that needs another key than the one that is removed.
  pub Every-without :
      (k : Text) (m : ObjectMap V)
      → ((j : Text) (v : V) → text_eq j k ≡ false → P j v → Q j v)
      → Every P m
      → Every Q (without k m)
  unfolding keep_entries
  Every-without k [] h all = tt
  Every-without k (e ∷ es) h (here, all) =
      let rest = Every-without k es h all in
      if_holds (Every Q) (not (text_eq e.key k))
        (λ differs. (h e.key e.value (ground (arith, differs)) here, rest)) (λ same. rest)

  pub Every-absent :
      (k : Text) (m : ObjectMap V)
      → ((j : Text) (v : V) → text_eq j k ≡ false → P j v → Q j v)
      → lookup k m ≡ none
      → Every P m
      → Every Q m
  unfolding lookup
  Every-absent k [] h absent all = tt
  Every-absent k (e ∷ es) h absent (here, all) = (
    h e.key e.value (ground (arith, absent)) here,
    Every-absent k es h (ground (arith, absent)) all,
  )
