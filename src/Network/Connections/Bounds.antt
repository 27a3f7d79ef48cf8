-- ===== src/Network/Connections/Bounds.antt =====
-- The limits that src/server/network/connections.ts keeps.
use chatwca.Prelude.{
  Bool, List, Option, [], arith, false, if◌then◌else◌, none, refl, some, suc, true, zero, ℕ, ◌++◌,
  ◌∷◌, ◌≡◌, ◌≤◌,
}
use chatwca.Network.Connections.{
  ConnectionAdmission, AdmissionEvent, StreamBudget, BudgetEvent, acquire, release, mark_released,
  stop, admit, account, spend, touch, dispose_budget, close_budget, fresh, acquires, stops,
  releases, accounts, touches, idle_fires, disposes,
}

-- The handles that are not released.
abbrev pub held : List Bool → ℕ
held [] = 0
held (flag ∷ flags) = if flag then held flags else suc (held flags)

held-append : (flags : List Bool) → held (flags ++ (false ∷ [])) ≡ suc (held flags)
held-append [] = refl
held-append (flag ∷ flags) = ground (arith, held-append flags)

-- A release counts one handle less.
abbrev Releases : List Bool → Option (List Bool) → Type 0
Releases flags none = Unit {0}
Releases flags (some marked) = held flags ≡ suc (held marked)

mark_released-Releases :
    (flags : List Bool) (handle : ℕ) → Releases flags (mark_released flags handle)
unfolding mark_released
mark_released-Releases [] handle = tt
mark_released-Releases (flag ∷ flags) zero = ground arith
mark_released-Releases (flag ∷ flags) (suc handle) =
    ground (arith, mark_released-Releases flags handle)

pub record IsWithin (s : ConnectionAdmission) : Type 0 where
  pub exact : s.active ≡ held s.released
  pub bounded : s.active ≤ s.maximum

acquire-IsWithin : (s : ConnectionAdmission) → IsWithin s → IsWithin (acquire s).1
unfolding acquire
acquire-IsWithin s v = ground (arith, v.exact, v.bounded, held-append s.released)

release-IsWithin : (handle : ℕ) (s : ConnectionAdmission) → IsWithin s → IsWithin (release handle s)
unfolding release
release-IsWithin handle s v =
    ground (arith, v.exact, v.bounded, mark_released-Releases s.released handle)

-- From a state in which the connections counted are the handles not released, and at most the
-- maximum, every sequence of acquisitions, releases (of any handle, any number of times) and stops
-- leads to such a state.
pub admit-IsWithin :
    (es : List AdmissionEvent) (s : ConnectionAdmission) → IsWithin s → IsWithin (admit s es)
unfolding admit
admit-IsWithin [] s v = v
admit-IsWithin (acquires ∷ es) s v = admit-IsWithin es (acquire s).1 (acquire-IsWithin s v)
admit-IsWithin (stops ∷ es) s v =
    admit-IsWithin es (stop s) (record { exact = v.exact; bounded = v.bounded })
admit-IsWithin (releases handle ∷ es) s v =
    admit-IsWithin es (release handle s) (release-IsWithin handle s v)

pub record IsMetered (max_bytes : ℕ) (s : StreamBudget) : Type 0 where
  pub limited : s.passed ≤ max_bytes
  pub once : s.closings ≤ 1
  pub counted : s.closed ≡ false → (s.bytes ≡ s.passed) × (s.closings ≡ 0) × (s.armed ≡ true)
  pub quiet : s.closed ≡ true → s.armed ≡ false

account-IsMetered :
    (max_bytes n : ℕ) (s : StreamBudget)
    → IsMetered max_bytes s
    → IsMetered max_bytes (account max_bytes n s).1
unfolding account
account-IsMetered max_bytes n s v = ground (arith, v.limited, v.once, v.counted, v.quiet)

touch-IsMetered :
    (max_bytes : ℕ) (s : StreamBudget) → IsMetered max_bytes s → IsMetered max_bytes (touch s)
touch-IsMetered max_bytes s v = ground (arith, v.limited, v.once, v.counted, v.quiet)

dispose_budget-IsMetered :
    (max_bytes : ℕ) (s : StreamBudget)
    → IsMetered max_bytes s
    → IsMetered max_bytes (dispose_budget s)
dispose_budget-IsMetered max_bytes s v = ground (arith, v.limited, v.once, v.counted, v.quiet)

idle-IsMetered :
    (max_bytes : ℕ) (s : StreamBudget)
    → IsMetered max_bytes s
    → IsMetered max_bytes (if s.armed then close_budget (dispose_budget s) else s)
idle-IsMetered max_bytes s v = ground (arith, v.limited, v.once, v.counted, v.quiet)

spend-kept :
    (max_bytes : ℕ) (es : List BudgetEvent) (s : StreamBudget)
    → IsMetered max_bytes s
    → IsMetered max_bytes (spend max_bytes s es)
unfolding spend
spend-kept max_bytes [] s v = v
spend-kept max_bytes (accounts n ∷ es) s v =
    spend-kept max_bytes es _ (account-IsMetered max_bytes n s v)
spend-kept max_bytes (touches ∷ es) s v = spend-kept max_bytes es _ (touch-IsMetered max_bytes s v)
spend-kept max_bytes (idle_fires ∷ es) s v =
    spend-kept max_bytes es _ (idle-IsMetered max_bytes s v)
spend-kept max_bytes (disposes ∷ es) s v =
    spend-kept max_bytes es _ (dispose_budget-IsMetered max_bytes s v)

-- After any sequence of chunks, touches, idle timeouts and disposals of a new budget: the chunks let
-- through have at most the budget's bytes together, the stream is closed at most once, a budget in
-- use counts what it let through, has not closed its stream and has its idle timer set, and a
-- disposed one has no timer.
pub spend-IsMetered :
    (max_bytes : ℕ) (es : List BudgetEvent) → IsMetered max_bytes (spend max_bytes fresh es)
spend-IsMetered max_bytes es = spend-kept max_bytes es fresh (ground arith)
