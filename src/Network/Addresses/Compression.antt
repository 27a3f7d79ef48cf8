-- ===== src/Network/Addresses/Compression.antt =====
-- The loop of `formatIpv6` that finds the longest run of zero words: what it returns is a run.
use mathlib.Core.List.{append_assoc}
use native.Mathlib.Nat.{zero-add, suc-add}
use native.Mathlib.Numerals.{add-one}
use chatwca.Prelude.{
  Bool-cases, List, Option, [], ap, arith, drop, inl, inr, leb, length, length-append,
  length-replicate, ltb, none, refl, replicate, some, subst, suc, take, zero, ℕ, ◌&&◌, ◌++◌, ◌+◌,
  ◌∙◌, ◌∷◌, ◌≡◌, ◌≤◌,
}
use chatwca.Network.Addresses.Format.{Best, better, best_run, zeros, no_run}

-- `best` is no run, or a run of at least two zeros of the words.
abbrev IsRunAt : List ℕ → ℕ → Option ℕ → Type 0
IsRunAt ws n none = Unit
IsRunAt ws n (some s) =
    (2 ≤ n) × (s + n ≤ length ws) × (take s ws ++ (replicate n 0 ++ drop (s + n) ws) ≡ ws)

abbrev pub IsRun : List ℕ → Best → Type 0
IsRun ws best = IsRunAt ws best.run best.start

zeros_split : (ws : List ℕ) → replicate (zeros ws) 0 ++ drop (zeros ws) ws ≡ ws
unfolding zeros
zeros_split [] = refl
zeros_split (zero ∷ ws) = rw add-one (ap (◌∷◌ 0) (zeros_split ws))
zeros_split (suc w ∷ ws) = refl

zeros-le : (ws : List ℕ) → zeros ws ≤ length ws
unfolding zeros
zeros-le [] = omega arith
zeros-le (zero ∷ ws) = omega (arith, zeros-le ws)
zeros-le (suc w ∷ ws) = omega arith

take-length : (xs ys : List ℕ) → take (length xs) (xs ++ ys) ≡ xs
take-length [] ys = refl
take-length (x ∷ xs) ys = ap (◌∷◌ x) (take-length xs ys)

drop-length : (n : ℕ) (xs ys : List ℕ) → drop (length xs + n) (xs ++ ys) ≡ drop n ys
drop-length n [] ys = rw zero-add
drop-length n (x ∷ xs) ys = rw suc-add (drop-length n xs ys)

better-IsRun :
    (before ws : List ℕ) (n : ℕ) (best : Best)
    → n ≤ length ws
    → replicate n 0 ++ drop n ws ≡ ws
    → IsRun (before ++ ws) best
    → IsRun (before ++ ws) (better (length before) n best)
better-IsRun before ws n best h e r = elim (Bool-cases (leb 2 n && ltb best.run n)) [
  | inl longer ↦ rw longer (
    ground arith,
    ground (arith, length-append before ws),
    rw (take-length before ws, drop-length n before ws, e),
  )
  | inr shorter ↦ rw shorter r
]

replicate_plus : (n : ℕ) (xs : List ℕ) → replicate n 0 ++ (0 ∷ xs) ≡ 0 ∷ (replicate n 0 ++ xs)
replicate_plus zero xs = refl
replicate_plus (suc n) xs = ap (◌∷◌ 0) (replicate_plus n xs)

-- The words before the index and from it on are all of the words; the loop keeps a run a run.
best_run-IsRun :
    (fuel index : ℕ) (before ws : List ℕ) (best : Best)
    → index ≡ length before
    → IsRun (before ++ ws) best
    → IsRun (before ++ ws) (best_run fuel index ws best)
unfolding best_run
best_run-IsRun zero index before ws best e r = r
best_run-IsRun (suc fuel) index before [] best e r = r
best_run-IsRun (suc fuel) index before (suc w ∷ ws) best e r =
    let next = before ++ (suc w ∷ []) in
    let same : next ++ ws ≡ before ++ (suc w ∷ ws) = append_assoc before (suc w ∷ []) ws in
    subst (λ x. IsRun x (best_run fuel (index + 1) ws best)) same
      (best_run-IsRun fuel (index + 1) next ws best
        (omega (arith, length-append before (suc w ∷ []))) (rw same r))
best_run-IsRun (suc fuel) index before (zero ∷ ws) best e r =
    let n = zeros ws + 1 in
    let next = before ++ replicate n 0 in
    let rest = drop (zeros ws) ws in
    let b = better index n best in
    let whole : replicate n 0 ++ rest ≡ 0 ∷ ws = rw add-one (ap (◌∷◌ 0) (zeros_split ws)) in
    let same : next ++ rest ≡ before ++ (0 ∷ ws) =
      append_assoc before (replicate n 0) rest ∙ ap (◌++◌ before) whole in
    subst (λ x. IsRun x (best_run fuel (index + n) rest b)) same
      (best_run-IsRun fuel (index + n) next rest b
        (omega (arith, length-append before (replicate n 0), length-replicate {A = ℕ} n 0))
        (rw (same, e)
          (better-IsRun before (0 ∷ ws) n best (omega (arith, zeros-le ws))
            (rw add-one (ap (◌∷◌ 0) (zeros_split ws))) r)))

pub best_run_lem : (ws : List ℕ) → IsRun ws (best_run 8 0 ws no_run)
best_run_lem ws = best_run-IsRun 8 0 [] ws no_run refl tt
