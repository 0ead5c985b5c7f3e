-- ===== src/PortDriver/Callbacks.antt =====
-- The callbacks of s7nodaveApp/src/PortDriver.cc that asyn makes, one after the other.
-- The callback that reports writes a text only, and is left out.
use s7nodave.Asyn.{PlcArea}
use s7nodave.MultipleRead.{MultiOutcome, asyn_plc_read_multiple_items}
use s7nodave.PortDriver.{
  Call, PortDriver, Outcome, asyn_connect, asyn_disconnect, asyn_plc_read, asyn_plc_write,
  asyn_plc_write_bit,
}
use s7nodave.Prelude.{ℕ, Option, some, ◌>>=◌, List, [], ◌∷◌, ◌++◌, map, Bytes, ℤ}
use s7nodave.ReadItem.{Request}
use s7nodave.ReadRequest.{Client, PlcCall}

-- A call of asyn's manager or of the client; a read of several items makes calls of its own.
pub data DriverEvent : Type 0 where
  driver_call : Call → DriverEvent
  plc_call : PlcCall → DriverEvent

-- A callback of asyn, with the answers that the client gives during it.
pub data Operation : Type 0 where
  connect : (Bytes → Bytes) → (Call → ℕ) → Operation
  disconnect : Operation
  plc_read : (Call → ℕ) → PlcArea → ℤ → ℤ → ℤ → Operation
  -- The memory, the client, its PDU length, and the chain of requests.
  plc_read_multiple_items : (ℕ → Option Bytes) → Client → ℕ → List Request → Operation
  plc_write : (Call → ℕ) → PlcArea → ℤ → ℤ → ℤ → Bytes → Operation
  plc_write_bit : (Call → ℕ) → PlcArea → ℤ → ℤ → ℤ → ℕ → Operation

-- The driver afterwards, and what it called.
pub record Performed : Type 0 where
  pub driver : PortDriver
  pub events : List DriverEvent

abbrev pub of_outcome : Outcome → Performed
of_outcome o = record { driver = o.driver; events = map driver_call o.calls }

-- The connection is given up, if it is, behind the calls for the items.
abbrev pub of_items : MultiOutcome → Performed
of_items o = record {
  driver = o.driver;
  events = map plc_call o.plc_calls ++ map driver_call o.calls;
}

-- `none` is a read of several items that does not return.
unfoldable pub perform : Operation → PortDriver → Option Performed
unfolding asyn_connect asyn_plc_read asyn_plc_write asyn_plc_write_bit asyn_plc_read_multiple_items
perform (connect resolve client) d = some (of_outcome (asyn_connect resolve client d))
perform disconnect d = some (of_outcome (asyn_disconnect d))
perform (plc_read client area number start n) d =
    some (of_outcome (asyn_plc_read client d area number start n))
perform (plc_read_multiple_items malloc client pdu_length chain) d = do
  o ← asyn_plc_read_multiple_items malloc client pdu_length d chain
  some (of_items o)
perform (plc_write client area number start n buffer) d =
    some (of_outcome (asyn_plc_write client d area number start n buffer))
perform (plc_write_bit client area number start start_bit value) d =
    some (of_outcome (asyn_plc_write_bit client d area number start start_bit value))

-- The driver and all calls after a sequence of callbacks.
unfoldable pub run : List Operation → PortDriver → Option Performed
run [] d = some (record { driver = d; events = [] })
run (o ∷ operations) d = do
  first ← perform o d
  later ← run operations first.driver
  some (record { driver = later.driver; events = first.events ++ later.events })
