-- ===== src/Network/Connections.antt =====
-- src/server/network/connections.ts: `ConnectionAdmission` and `StreamBudget`. The clean-up function
-- that `acquire` returns is a handle, the index of its `released` flag.
pub mod Bounds
mod Tests
use chatwca.Prelude.{
  Bool, List, Number, Option, Result, [], err, false, if◌then◌else◌, is_safe, leb, length, ltb, nat,
  none, ok, other, some, suc, true, zero, ℕ, ◌&&◌, ◌++◌, ◌+◌, ◌-◌, ◌||◌, ◌∷◌,
}

pub record ConnectionAdmission : Type 0 where
  pub maximum : ℕ
  pub active : ℕ
  pub closed : Bool
  pub released : List Bool

pub data LimitError : Type 0 where
  not_positive_safe : LimitError

unfoldable pub is_positive : Number → Bool
is_positive (nat n) = is_safe n && ltb 0 n
is_positive other = false

unfoldable pub create : Number → Result LimitError ConnectionAdmission
unfolding is_positive
create (nat n) =
    if is_positive (nat n)
    then ok (record { maximum = n; active = 0; closed = false; released = [] })
    else err not_positive_safe
create other = err not_positive_safe

unfoldable pub acquire : ConnectionAdmission → Option ℕ × ConnectionAdmission
acquire s = if s.closed || leb s.maximum s.active then (none, s) else (
  some (length s.released),
  record s { active = s.active + 1; released = s.released ++ (false ∷ []) },
)

-- The flags after a release, where the handle is not released yet.
unfoldable pub mark_released : List Bool → ℕ → Option (List Bool)
mark_released [] handle = none
mark_released (flag ∷ flags) zero = if flag then none else some (true ∷ flags)
mark_released (flag ∷ flags) (suc handle) = elim (mark_released flags handle) [
  | none ↦ none
  | some marked ↦ some (flag ∷ marked)
]

unfoldable pub release : ℕ → ConnectionAdmission → ConnectionAdmission
release handle s = elim (mark_released s.released handle) [
  | none ↦ s
  | some flags ↦ record s { active = s.active - 1; released = flags }
]

abbrev pub stop : ConnectionAdmission → ConnectionAdmission
stop s = record s { closed = true }

pub data AdmissionEvent : Type 0 where
  acquires stops : AdmissionEvent
  releases : ℕ → AdmissionEvent

unfoldable pub admit : ConnectionAdmission → List AdmissionEvent → ConnectionAdmission
unfolding acquire release
admit s [] = s
admit s (acquires ∷ es) = admit (acquire s).1 es
admit s (stops ∷ es) = admit (stop s) es
admit s (releases handle ∷ es) = admit (release handle s) es

-- A `StreamBudget`: `armed` says that the idle timer is set, `passed` counts the bytes of the chunks
-- let through, and `closings` the calls of the `close` callback.
pub record StreamBudget : Type 0 where
  pub bytes : ℕ
  pub closed : Bool
  pub armed : Bool
  pub passed : ℕ
  pub closings : ℕ

abbrev pub fresh : StreamBudget
fresh = record { bytes = 0; closed = false; armed = true; passed = 0; closings = 0 }

unfoldable pub open_budget : Number → Number → Result LimitError StreamBudget
unfolding is_positive
open_budget idle_timeout max_bytes =
    if is_positive idle_timeout && is_positive max_bytes then ok fresh else err not_positive_safe

abbrev pub touch : StreamBudget → StreamBudget
touch s = if s.closed then s else record s { armed = true }

abbrev pub dispose_budget : StreamBudget → StreamBudget
dispose_budget s = if s.closed then s else record s { closed = true; armed = false }

abbrev pub close_budget : StreamBudget → StreamBudget
close_budget s = record s { closings = s.closings + 1 }

unfoldable pub account : ℕ → ℕ → StreamBudget → Bool × StreamBudget
account max_bytes n s =
    if s.closed
    then (false, s)
    else let counted = record s { bytes = s.bytes + n } in
      if ltb max_bytes counted.bytes
      then (false, close_budget (dispose_budget counted))
      else (true, touch (record counted { passed = s.passed + n }))

pub data BudgetEvent : Type 0 where
  accounts : ℕ → BudgetEvent
  touches idle_fires disposes : BudgetEvent

unfoldable pub spend : ℕ → StreamBudget → List BudgetEvent → StreamBudget
unfolding account
spend max_bytes s [] = s
spend max_bytes s (accounts n ∷ es) = spend max_bytes (account max_bytes n s).1 es
spend max_bytes s (touches ∷ es) = spend max_bytes (touch s) es
spend max_bytes s (idle_fires ∷ es) =
    spend max_bytes (if s.armed then close_budget (dispose_budget s) else s) es
spend max_bytes s (disposes ∷ es) = spend max_bytes (dispose_budget s) es
