-- ===== src/Registry/Capacity.antt =====
-- src/server/conversation-registry.ts: the reservation of capacity, registration and eviction.
use chatwca.Prelude.{
  Bool, List, Option, [], any, false, get_elem?, if◌then◌else◌, keep, leb, length, map, none, not,
  set_at, some, suc, true, ℕ, ◌&&◌, ◌++◌, ◌+◌, ◌-◌, ◌==◌, ◌||◌, ◌∷◌,
}
use chatwca.Prelude.Text.{Text, text_eq}
use chatwca.Protocol.Conversations.{LiveConversationStatus, error}
use chatwca.Registry.Records.{least_recently_used_idle, ConversationRecord, Records}

-- The closure that `#reserveCapacity` returns: whether it is not released. `registered` is no part
-- of the source: it says that the runtime that the slot was taken for is among the records.
pub record Reservation : Type 0 where
  pub held : Bool
  pub registered : Bool

-- The records stand in the order of #byId. `created` numbers the record objects.
pub record Registry : Type 0 where
  pub records : Records
  pub capacity_reservations : ℕ
  pub reservations : List Reservation
  pub created : ℕ
  pub shutting_down : Bool

unfoldable pub create_registry : Registry
create_registry = record {
  records = [];
  capacity_reservations = 0;
  reservations = [];
  created = 0;
  shutting_down = false;
}

abbrev pub begin_shutdown : Registry → Registry
begin_shutdown s = record s { shutting_down = true }

-- A change of the record object of a reference.
abbrev pub change_one :
    (ConversationRecord → ConversationRecord) → ℕ → ConversationRecord → ConversationRecord
change_one change r item = if item.reference == r then change item else item

abbrev pub change_record : (ConversationRecord → ConversationRecord) → ℕ → Registry → Registry
change_record change r s = record s { records = map (change_one change r) s.records }

abbrev pub start_close : ConversationRecord → ConversationRecord
start_close item = record item { closing = true }

abbrev pub touch : ℕ → ConversationRecord → ConversationRecord
touch now item = record item { last_active_at = now }

abbrev pub set_status : LiveConversationStatus → Bool → ConversationRecord → ConversationRecord
set_status status is_streaming item = record item {
  status = status;
  session_streaming = is_streaming;
}

abbrev pub increment_fork : ConversationRecord → ConversationRecord
increment_fork item = record item { forks = item.forks + 1 }

abbrev pub decrement_fork : ConversationRecord → ConversationRecord
decrement_fork item = record item { forks = item.forks - 1 }

-- One turn of the loop of `#reserveCapacity`: a slot, a record whose eviction starts and is waited
-- for, or the error of the limit.
pub data Turn : Type 0 where
  granted : Registry → Turn
  evicting : ℕ → Registry → Turn
  live_runtime_limit : Turn

abbrev pub grant : Registry → Registry
grant s = record s {
  capacity_reservations = s.capacity_reservations + 1;
  reservations = s.reservations ++ (record { held = true; registered = false } ∷ []);
}

abbrev pub evict : Option ConversationRecord → Registry → Turn
evict none s = live_runtime_limit
evict (some item) s = evicting item.reference (change_record start_close item.reference s)

unfoldable pub reserve_turn : (Text → Text → Bool) → ℕ → Option ℕ → Registry → Turn
unfolding least_recently_used_idle
reserve_turn precedes max_live protected s =
    if leb max_live (length s.records + s.capacity_reservations)
    then evict (least_recently_used_idle precedes protected s.records) s
    else granted (grant s)

-- The end of `#disposeRecord`.
unfoldable pub finish_close : ℕ → Registry → Registry
finish_close r s = record s {
  records = keep (λ (item : ConversationRecord). not (item.reference == r)) s.records;
}

abbrev pub release_held : ℕ → Option Reservation → Registry → Registry
release_held i none s = s
release_held i (some item) s =
    if item.held
    then record s {
      capacity_reservations = s.capacity_reservations - 1;
      reservations = set_at i (record item { held = false }) s.reservations;
    }
    else s

-- A reservation's closure is called.
unfoldable pub release_capacity : ℕ → Registry → Registry
release_capacity i s = release_held i (get_elem? s.reservations i) s

abbrev pub clashes : Text → Text → ConversationRecord → Bool
clashes id session_file item = text_eq item.id id || text_eq item.session_file session_file

-- From the last duplicate check of `#register` to the insertion, with the slot of a reservation.
-- With a duplicate the new runtime is disposed and no record is added; that the duplicate is touched
-- is a change of its own.
unfoldable pub register : ℕ → Reservation → ConversationRecord → Registry → Registry
unfolding text_eq
register i item fresh s =
    if any (clashes fresh.id fresh.session_file) s.records then s else record s {
      records = s.records ++ (record fresh { reference = s.created } ∷ []);
      reservations = set_at i (record item { registered = true }) s.reservations;
      created = suc s.created;
    }

abbrev pub clashes_elsewhere : ℕ → Text → Text → ConversationRecord → Bool
clashes_elsewhere r id session_file item = not (item.reference == r) && clashes id session_file item

abbrev pub move_to_end : ConversationRecord → Registry → Registry
move_to_end item s = record s {
  records =
      keep (λ (other_item : ConversationRecord). not (other_item.reference == item.reference))
        s.records
      ++ (item ∷ []);
}

-- `#replaceIdentity`: the record's session has another identity and file. Its title, its revision and
-- the policy checks before are left out.
unfoldable pub replace_identity : Text → Text → ℕ → ConversationRecord → Registry → Registry
unfolding text_eq
replace_identity id session_file now item s =
    if any (clashes_elsewhere item.reference id session_file) s.records
    then change_record (λ r. record r { status = error }) item.reference s
    else move_to_end (record item { id = id; session_file = session_file; last_active_at = now }) s
