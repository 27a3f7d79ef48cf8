-- ===== src/Client/Entries.antt =====
-- src/web/src/api/state.ts, `replaceMessage` and what else an event does to the messages: the entries
-- that they stand for.
use mathlib.Core.Option.{some-injective}
use chatwca.Prelude.{
  All, Bool, Bool-cases, List, Option, [], all, ap, arith, find_index, find_last_index, get_elem?,
  if◌then◌else◌, inl, inr, map, none, refl, set_at, some, subst, suc, sym, zero, ℕ, ◌++◌, ◌∙◌, ◌∷◌,
  ◌≡◌, ◌≢◌, ◌⊎◌,
}
use chatwca.Prelude.Text.{Text, text_eq}
use chatwca.Prelude.Text.Equality.{text_eq_iff, text_eq_sound}
use chatwca.Protocol.Messages.{NormalizedMessage, entry_id}
use chatwca.Client.Messages.{Messages, first_of, has_entry_id, is_stream_of, place, replace_message}

abbrev Others : Text → List Text → Type 0
Others id ids = All (λ x. x ≢ id) ids

-- No two entries are the same.
abbrev pub Distinct : List Text → Type 0
Distinct [] = Unit {0}
Distinct (x ∷ xs) = Others x xs × Distinct xs

abbrev pub entries : Messages → List Text
entries messages = map entry_id messages

abbrev pub HasDistinctEntries : Messages → Type 0
HasDistinctEntries messages = Distinct (entries messages)

Others-append : (id x : Text) (xs : List Text) → x ≢ id → Others id xs → Others id (xs ++ (x ∷ []))
Others-append id x [] h all = (h, tt)
Others-append id x (y ∷ ys) h (here, all) = (here, Others-append id x ys h all)

Distinct-append :
    (id : Text) (xs : List Text) → Others id xs → Distinct xs → Distinct (xs ++ (id ∷ []))
Distinct-append id [] h d = (tt, tt)
Distinct-append id (x ∷ xs) (h, hs) (others, d) =
    (Others-append x id xs (λ e. h (sym e)) others, Distinct-append id xs hs d)

Others-set_at :
    (i : ℕ) (id x : Text) (xs : List Text) → x ≢ id → Others id xs → Others id (set_at i x xs)
Others-set_at i id x [] h all = tt
Others-set_at zero id x (y ∷ ys) h (here, all) = (h, all)
Others-set_at (suc i) id x (y ∷ ys) h (here, all) = (here, Others-set_at i id x ys h all)

Distinct-set_at :
    (i : ℕ) (id : Text) (xs : List Text) → Others id xs → Distinct xs → Distinct (set_at i id xs)
Distinct-set_at i id [] h d = tt
Distinct-set_at zero id (x ∷ xs) (h, hs) (others, d) = (hs, d)
Distinct-set_at (suc i) id (x ∷ xs) (h, hs) (others, d) =
    (Others-set_at i x id xs (λ e. h (sym e)) others, Distinct-set_at i id xs hs d)

entries-append :
    (messages : Messages) (m : NormalizedMessage)
    → entries (messages ++ (m ∷ [])) ≡ entries messages ++ (entry_id m ∷ [])
entries-append [] m = refl
entries-append (x ∷ xs) m = ap (◌∷◌ (entry_id x)) (entries-append xs m)

entries-set_at :
    (i : ℕ) (m : NormalizedMessage) (messages : Messages)
    → entries (set_at i m messages) ≡ set_at i (entry_id m) (entries messages)
entries-set_at i m [] = refl
entries-set_at zero m (x ∷ xs) = refl
entries-set_at (suc i) m (x ∷ xs) = ap (◌∷◌ (entry_id x)) (entries-set_at i m xs)

-- The entry that is put where it stands already.
set_at_same :
    (i : ℕ) (id : Text) (m : NormalizedMessage) (messages : Messages)
    → get_elem? messages i ≡ some m
    → entry_id m ≡ id
    → set_at i id (entries messages) ≡ entries messages
set_at_same i id m [] found same = refl
set_at_same zero id m (x ∷ xs) found same =
    ap (λ e. e ∷ entries xs) (sym same ∙ ap entry_id (sym (some-injective x m found)))
set_at_same (suc i) id m (x ∷ xs) found same =
    ap (◌∷◌ (entry_id x)) (set_at_same i id m xs found same)

-- Where an entry is found, or that it is none of them.
find_entry-cases :
    (id : Text) (messages : Messages)
    → ((find_index (has_entry_id id) messages ≡ none) × Others id (entries messages))
      ⊎ ((i : ℕ) × (find_index (has_entry_id id) messages ≡ some i)
          × (set_at i id (entries messages) ≡ entries messages))
find_entry-cases id [] = inl (refl, tt)
find_entry-cases id (x ∷ xs) = elim (Bool-cases (text_eq (entry_id x) id)) [
  | inl same ↦
      inr (
        0,
        ground (arith, same),
        ap (λ e. e ∷ entries xs) (sym (text_eq_sound (entry_id x) id same)),
      )
  | inr differs ↦ elim (find_entry-cases id xs) [
    | inl (absent, others) ↦ inl (
      ground (arith, differs, absent),
      (λ e. ground (arith, differs, (text_eq_iff (entry_id x) id).1 e), others),
    )
    | inr (i, found, same) ↦ inr (suc i, ground (arith, differs, found), ap (◌∷◌ (entry_id x)) same)
  ]
]

place-Distinct :
    (messages : Messages) (m : NormalizedMessage) (at : Option ℕ)
    → Others (entry_id m) (entries messages)
    → HasDistinctEntries messages
    → HasDistinctEntries (place messages m at)
place-Distinct messages m none others d =
    subst Distinct (sym (entries-append messages m))
      (Distinct-append (entry_id m) (entries messages) others d)
place-Distinct messages m (some i) others d =
    subst Distinct (sym (entries-set_at i m messages))
      (Distinct-set_at i (entry_id m) (entries messages) others d)

pub replace_message-Distinct :
    (messages : Messages) (m : NormalizedMessage) (completed : Bool)
    → HasDistinctEntries messages
    → HasDistinctEntries (replace_message messages m completed)
unfolding replace_message
replace_message-Distinct messages m completed d =
    let streamed = if completed then find_last_index (is_stream_of m) messages else none in
    elim (find_entry-cases (entry_id m) messages) [
      | inl (absent, others) ↦
          subst (λ at. HasDistinctEntries (place messages m (first_of at streamed))) (sym absent)
            (place-Distinct messages m streamed others d)
      | inr (i, found, same) ↦
          subst (λ at. HasDistinctEntries (place messages m (first_of at streamed))) (sym found)
            (subst Distinct (sym (entries-set_at i m messages ∙ same)) d)
    ]
