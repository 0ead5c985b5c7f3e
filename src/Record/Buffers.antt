-- ===== src/Record/Buffers.antt =====
-- What input and output records do with the buffers that they hold, as a sequence of events, from
-- s7nodaveApp/src/S7nodaveInputRecord.cc and S7nodaveOutputRecord.cc.
use s7nodave.Prelude.{
  ◌≡◌, ◌∙◌, ap, Bool, true, false, not, ◌&&◌, Option, none, some, ◌>>=◌, >>=-eq-some, some_inj,
  List, [], ◌∷◌, ◌++◌, Bytes, if◌then◌else◌,
}

-- The buffers that a record may own at once: the new data, the buffer of the step that goes on, and a second one
-- for bits that are moved.
pub data Slot : Type 0 where
  data_slot step_slot spare_slot : Slot

-- A buffer is taken when it is allocated or handed over by another component.
pub data Event : Type 0 where
  taken freed : Slot → Event
  -- The buffer of the step is handed over to another component.
  given_away : Event
  -- The buffer of the step becomes the new data, or the second buffer becomes that of the step.
  put_in_place put_over : Event
  -- asyn is to call the record in the thread of its port.
  queued : Event
  -- EPICS is to process the record again, or all records of its scan list.
  process_requested scan_requested : Event
  -- The value of the record is set from these bytes, or an alarm is raised.
  written : Bytes → Event
  alarmed alarms_reset : Event
  -- The port of the driver is kept for the record, and given back.
  port_locked port_unlocked : Event

abbrev pub is_held : Option Bytes → Bool
is_held none = false
is_held (some b) = true

-- The event, if it happens.
abbrev pub if_so : Bool → Event → List Event
if_so b e = if b then e ∷ [] else []

-- The second buffer of a transfer is freed at its end.
abbrev pub spare_events : Bool → List Event
spare_events b = if b then taken spare_slot ∷ freed spare_slot ∷ [] else []

-- Which buffers a record owns: its new data, that of the step, and the second one.
pub record Owned : Type 0 where
  pub held : Bool
  pub step : Bool
  pub spare : Bool

-- A buffer is taken only where there is none, and freed, moved or given away only where there is one. `none` is
-- a buffer that is lost, or freed when it is not owned.
abbrev pub after_event : Event → Owned → Option Owned
after_event (taken data_slot) o = none
after_event (taken step_slot) o = if o.step then none else some (record o { step = true })
after_event (taken spare_slot) o = if o.spare then none else some (record o { spare = true })
after_event (freed data_slot) o = if o.held then some (record o { held = false }) else none
after_event (freed step_slot) o = if o.step then some (record o { step = false }) else none
after_event (freed spare_slot) o = if o.spare then some (record o { spare = false }) else none
after_event given_away o = if o.step then some (record o { step = false }) else none
after_event put_in_place o =
    if o.step && not o.held then some (record o { held = true; step = false }) else none
after_event put_over o =
    if o.spare && not o.step then some (record o { step = true; spare = false }) else none
after_event e o = some o

abbrev pub after_events : List Event → Owned → Option Owned
after_events [] o = some o
after_events (e ∷ events) o = do o' ← after_event e o; after_events events o'

-- Between steps a record owns its new data only.
abbrev pub owns : Option Bytes → Owned
owns b = record { held = is_held b; step = false; spare = false }

-- The events take and free each buffer in its turn, and leave the record with its new data only.
abbrev pub IsBalanced : Option Bytes → List Event → Option Bytes → Type 0
IsBalanced before events after = after_events events (owns before) ≡ some (owns after)

after_events-append :
    (a b : List Event) (o : Owned) {o' : Owned}
    → after_events a o ≡ some o'
    → after_events (a ++ b) o ≡ after_events b o'
after_events-append [] b o k = ap (after_events b) (some_inj k)
after_events-append (e ∷ a) b o k =
    let (q, first, rest) = >>=-eq-some (after_event e o) (after_events a) k in
    ap (λ x. x >>= after_events (a ++ b)) first ∙ after_events-append a b q rest

-- Two sequences of events in balance, one behind the other.
pub IsBalanced-append :
    (x y z : Option Bytes) (a b : List Event)
    → IsBalanced x a y
    → IsBalanced y b z
    → IsBalanced x (a ++ b) z
IsBalanced-append x y z a b k l = after_events-append a b (owns x) k ∙ l
