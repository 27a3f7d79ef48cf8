-- ===== src/Prelude/Text/Split.antt =====
-- `split` and `join` are inverse to each other.
use chatwca.Prelude.{
  ==_iff, All, Bool-cases, List, [], ap, arith, false, inl, inr, refl, sym, ℕ, ◌++◌, ◌==◌, ◌∙◌, ◌∷◌,
  ◌≡◌,
}
use chatwca.Prelude.Text.{Text, includes, add_to_first, split, join}

split-IsCons : (sep : ℕ) (t : Text) → (p : Text) × (ps : List Text) × (split sep t ≡ p ∷ ps)
unfolding split
split-IsCons sep [] = ([], [], refl)
split-IsCons sep (c ∷ cs) =
    let (p, ps, e) = split-IsCons sep cs in
    elim (Bool-cases (c == sep)) [
      | inl same ↦ ([], split sep cs, rw same)
      | inr differs ↦ (c ∷ p, ps, rw (differs, e))
    ]

join-add_to_first :
    (sep c : ℕ) (p : Text) (ps : List Text)
    → join sep (add_to_first c (p ∷ ps)) ≡ c ∷ join sep (p ∷ ps)
unfolding join
join-add_to_first sep c p [] = refl
join-add_to_first sep c p (q ∷ ps) = refl

join-nil : (sep : ℕ) (p : Text) (ps : List Text) → join sep ([] ∷ p ∷ ps) ≡ sep ∷ join sep (p ∷ ps)
unfolding join
join-nil sep p ps = refl

pub join-split : (sep : ℕ) (t : Text) → join sep (split sep t) ≡ t
unfolding split
join-split sep [] = unfold join in refl
join-split sep (c ∷ cs) =
    let (p, ps, e) = split-IsCons sep cs in
    elim (Bool-cases (c == sep)) [
      | inl same ↦
          rw (same, e, join-nil, ← e, join-split sep cs)
            (ap (λ x. x ∷ cs) (sym ((==_iff c sep).0 same)))
      | inr differs ↦ rw (differs, e, join-add_to_first, ← e, join-split sep cs)
    ]

pub split_plain : (sep : ℕ) (p : Text) → includes sep p ≡ false → split sep p ≡ p ∷ []
unfolding split
split_plain sep [] h = refl
split_plain sep (c ∷ cs) h = ground (arith, split_plain sep cs)

split_first :
    (sep : ℕ) (p t : Text) → includes sep p ≡ false → split sep (p ++ (sep ∷ t)) ≡ p ∷ split sep t
unfolding split
split_first sep [] t h = ground arith
split_first sep (c ∷ cs) t h = ground (arith, split_first sep cs t)

pub split-join :
    (sep : ℕ) (p : Text) (ps : List Text)
    → All (λ t. includes sep t ≡ false) (p ∷ ps)
    → split sep (join sep (p ∷ ps)) ≡ p ∷ ps
unfolding join
split-join sep p [] (h, _) = split_plain sep p h
split-join sep p (q ∷ ps) (h, k) =
    split_first sep p (join sep (q ∷ ps)) h ∙ ap (◌∷◌ p) (split-join sep q ps k)
