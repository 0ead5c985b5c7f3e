-- ===== src/PortDriver.antt =====
-- s7nodaveApp/src/PortDriver.cc: the connection to a PLC, and reads and writes through it.
-- The Snap7 client and asyn's manager are parameters: a function gives the status that they answer
-- to a call. An operation returns the driver, its status and the calls that it made, in order.
-- Messages and I/O traces are left out.
pub mod Callbacks
pub mod Connection
pub mod Protocol
mod Tests
use s7nodave.Asyn.{
  PlcArea, db, flags, inputs, outputs, timer, counter, AsynStatus, success, error, disconnected,
  is_success,
}
use s7nodave.Prelude.{
  ℕ, ◌*◌, ◌/◌, ◌%◌, ◌^◌, Bool, true, false, not, ◌||◌, Option, none, some, List, [], ◌∷◌, ◌++◌,
  Bytes, ◌==◌, if◌then◌else◌, ℤ, pos, ltb_ℤ, scale, ◌+ℤ◌,
}

pub data Interface : Type 0 where
  common s7nodave_interface : Interface

pub data WordLength : Type 0 where
  wl_bit wl_byte : WordLength

-- The calls of asyn's manager and of the Snap7 client.
pub data Call : Type 0 where
  register_port : Bytes → ℕ → Call
  register_interface : Bytes → Interface → Call
  -- The address, the port, the rack and the slot; the PDU length that is asked for is always 960.
  connect_to : Bytes → ℤ → ℤ → ℤ → Call
  client_disconnect : Call
  exception_connect : Call
  exception_disconnect : Call
  -- The area, its number, the start, the amount and the unit.
  read_area : ℕ → ℤ → ℤ → ℤ → WordLength → Call
  write_area : ℕ → ℤ → ℤ → ℤ → WordLength → Bytes → Call

pub record PortDriver : Type 0 where
  pub connected : Bool
  pub port_name : Bytes
  pub plc_hostname : Bytes
  pub plc_port : ℤ
  pub plc_rack : ℤ
  pub plc_slot : ℤ
  pub priority : ℕ
  pub registered : Bool

-- The constructor.
unfoldable pub new_driver : Bytes → Bytes → ℤ → ℤ → ℤ → ℕ → PortDriver
new_driver port_name plc_hostname plc_port plc_rack plc_slot priority = record {
  connected = false;
  port_name = port_name;
  plc_hostname = plc_hostname;
  plc_port = plc_port;
  plc_rack = plc_rack;
  plc_slot = plc_slot;
  priority = priority;
  registered = false;
}

pub record Outcome : Type 0 where
  pub driver : PortDriver
  pub status : AsynStatus
  pub calls : List Call
  -- What the call wrote through its pointer to a count of bytes, if it did.
  pub count : Option ℤ

-- Every failing call of the manager ends the registration with its status.
unfoldable pub register_port_driver : (Call → AsynStatus) → PortDriver → Outcome
register_port_driver manager d =
    if d.registered
    then record { driver = d; status = success; calls = []; count = none }
    else let port = register_port d.port_name d.priority in
      if not (is_success (manager port))
      then record { driver = d; status = manager port; calls = port ∷ []; count = none }
      else let first = register_interface d.port_name common in
        if not (is_success (manager first))
        then record { driver = d; status = manager first; calls = port ∷ first ∷ []; count = none }
        else let second = register_interface d.port_name s7nodave_interface in
          if not (is_success (manager second))
          then record {
            driver = d;
            status = manager second;
            calls = port ∷ first ∷ second ∷ [];
            count = none;
          }
          else record {
            driver = record d { registered = true };
            status = success;
            calls = port ∷ first ∷ second ∷ [];
            count = none;
          }

-- `resolve` is the resolver of the host: it gives the text of an address, empty if it finds none.
unfoldable pub asyn_connect : (Bytes → Bytes) → (Call → ℕ) → PortDriver → Outcome
asyn_connect resolve client d =
    if not (ltb_ℤ (pos 0) d.plc_port) || ltb_ℤ (pos 65535) d.plc_port
    then record { driver = d; status = error; calls = []; count = none }
    else let call = connect_to (resolve d.plc_hostname) d.plc_port d.plc_rack d.plc_slot in
      if client call == 0
      then record {
        driver = record d { connected = true };
        status = success;
        calls = call ∷ exception_connect ∷ [];
        count = none;
      }
      else record { driver = d; status = error; calls = call ∷ []; count = none }

unfoldable pub asyn_disconnect : PortDriver → Outcome
asyn_disconnect d =
    if not d.connected
    then record { driver = d; status = success; calls = []; count = none }
    else record {
      driver = record d { connected = false };
      status = success;
      calls = client_disconnect ∷ exception_disconnect ∷ [];
      count = none;
    }

-- The area codes of Snap7.
abbrev pub area_to_snap7_area : PlcArea → ℕ
area_to_snap7_area db = 0x84
area_to_snap7_area flags = 0x83
area_to_snap7_area inputs = 0x81
area_to_snap7_area outputs = 0x82
area_to_snap7_area timer = 0x1d
area_to_snap7_area counter = 0x1c

-- `status & errIsoMask`, four bits of the status.
abbrev pub iso_error : ℕ → ℕ
iso_error status = status / 2 ^ 16 % 16 * 2 ^ 16

-- An error after which the connection is given up: receiving, sending, a short packet.
abbrev pub is_connection_error : ℕ → Bool
is_connection_error status =
    iso_error status == 0x000a_0000
    || (iso_error status == 0x0009_0000 || iso_error status == 0x0006_0000)

-- What follows a call of the client that failed with a status.
unfoldable pub after_error : PortDriver → Call → ℕ → Outcome
after_error d call status =
    let o = asyn_disconnect d in
    if is_connection_error status
    then record { driver = o.driver; status = error; calls = call ∷ o.calls; count = none }
    else record { driver = d; status = error; calls = call ∷ []; count = none }

-- The three functions below go the same way: the driver must be connected, the call is made, and a
-- success writes the count that is given here.
unfoldable pub ask_client : (Call → ℕ) → PortDriver → Call → Option ℤ → Outcome
ask_client client d call count =
    if not d.connected
    then record { driver = d; status = disconnected; calls = []; count = none }
    else if client call == 0
    then record { driver = d; status = success; calls = call ∷ []; count = count }
    else after_error d call (client call)

module _ (client : Call → ℕ) (d : PortDriver) (area : PlcArea) (area_number start_byte : ℤ) where
  unfoldable pub asyn_plc_read : ℤ → Outcome
  unfolding ask_client
  asyn_plc_read read_length =
      ask_client client d
        (read_area (area_to_snap7_area area) area_number start_byte read_length wl_byte)
        (some read_length)

  unfoldable pub asyn_plc_write : ℤ → Bytes → Outcome
  unfolding ask_client
  asyn_plc_write write_length buffer =
      ask_client client d
        (write_area (area_to_snap7_area area) area_number start_byte write_length wl_byte buffer)
        (some write_length)

  -- The start counts bits, and the value is one bit.
  unfoldable pub asyn_plc_write_bit : ℤ → ℕ → Outcome
  unfolding ask_client
  asyn_plc_write_bit start_bit bit_value =
      ask_client client d
        (write_area (area_to_snap7_area area) area_number (scale 8 start_byte +ℤ start_bit) (pos 1)
          wl_bit ((if bit_value == 0 then 0 else 1) ∷ []))
        none
