-- ===== src/Network/Connections/Tests.antt =====
-- Runs of src/server/network/connections.ts.
use chatwca.Prelude.{List, [], arith, false, refl, ◌∷◌, ◌≡◌}
use chatwca.Network.Connections.{
  ConnectionAdmission, AdmissionEvent, BudgetEvent, acquires, releases, stops, accounts, idle_fires,
  admit, spend, fresh, disposes, touches, mark_released,
}
use chatwca.Network.Connections.Bounds.{IsWithin, IsMetered, admit-IsWithin, spend-IsMetered}

abbrev empty : ConnectionAdmission
empty = record { maximum = 2; active = 0; closed = false; released = [] }

abbrev busy : List AdmissionEvent
busy = acquires ∷ acquires ∷ acquires ∷ releases 0 ∷ releases 0 ∷ acquires ∷ stops ∷ acquires ∷ []

full : (admit empty busy).active ≡ 2
unfolding admit mark_released
full = refl

admit-IsWithin_example : IsWithin (admit empty busy)
admit-IsWithin_example = admit-IsWithin busy empty (record { exact = refl; bounded = omega arith })

abbrev spending : List BudgetEvent
spending = accounts 60 ∷ accounts 30 ∷ touches ∷ accounts 20 ∷ idle_fires ∷ disposes ∷ []

spend-IsMetered_example : IsMetered 100 (spend 100 fresh spending)
spend-IsMetered_example = spend-IsMetered 100 spending
