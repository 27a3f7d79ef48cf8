-- ===== src/Prelude/ObjectMap.antt =====
-- A JavaScript object used as a map from texts: its entries in order, with what `{ ...map, [key]:
-- value }`, a rest pattern and `Object.fromEntries(Object.entries(map).filter(...))` do.
pub mod Laws
use chatwca.Prelude.{Bool, List, Option, [], if◌then◌else◌, none, not, some, ◌∷◌}
use chatwca.Prelude.Text.{Text, text_eq}
use chatwca.Prelude.Text.Equality.{text_eq_refl, text_eq_sound, text_eq_iff}

pub record Entry {ℓ} (V : Type ℓ) : Type ℓ where
  pub key : Text
  pub value : V

abbrev pub ObjectMap {ℓ} : Type ℓ → Type ℓ
ObjectMap V = List (Entry V)

module _ {ℓ} {V : Type ℓ} where
  unfoldable pub lookup : Text → ObjectMap V → Option V
  lookup k [] = none
  lookup k (e ∷ es) = if text_eq e.key k then some e.value else lookup k es

  unfoldable pub put : Text → V → ObjectMap V → ObjectMap V
  put k v [] = record { key = k; value = v } ∷ []
  put k v (e ∷ es) =
      let rest = put k v es in
      if text_eq e.key k then record { key = e.key; value = v } ∷ es else e ∷ rest

  -- The entries that pass a test of the key and the value.
  unfoldable pub keep_entries : (Text → V → Bool) → ObjectMap V → ObjectMap V
  keep_entries test [] = []
  keep_entries test (e ∷ es) =
      let rest = keep_entries test es in if test e.key e.value then e ∷ rest else rest

  abbrev pub without : Text → ObjectMap V → ObjectMap V
  without k = keep_entries (λ key value. not (text_eq key k))

  unfoldable pub map_values : (Text → V → V) → ObjectMap V → ObjectMap V
  map_values change [] = []
  map_values change (e ∷ es) =
      record { key = e.key; value = change e.key e.value } ∷ map_values change es
