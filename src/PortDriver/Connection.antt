-- ===== src/PortDriver/Connection.antt =====
-- What s7nodaveApp/src/PortDriver.cc does to its connection, in any sequence of callbacks.
use s7nodave.Asyn.{AsynStatus, disconnected, is_success}
use s7nodave.PortDriver.{
  Call, exception_connect, exception_disconnect, PortDriver, register_port_driver, asyn_connect,
  asyn_disconnect, is_connection_error, after_error, ask_client, new_driver,
}
use s7nodave.PortDriver.Callbacks.{DriverEvent, driver_call, Operation, Performed, run}
use s7nodave.MultipleRead.Totality.{}
use s7nodave.ReadOptimizer.{}
use s7nodave.Prelude.{
  ◌+◌, ◌≤◌, ◌≡◌, Bool, true, false, not, ◌&&◌, Option, List, [], ◌∷◌, ◌++◌, Bytes, ◌==◌, ℤ, arith,
  ℕ, refl, some, All,
}
use s7nodave.PortDriver.Protocol.{
  Protocol, done, connected_to, not_connected_to, given_up, asked_to_read, asked_to_write,
  asked_for_items, Protocol-append, IsUnreadOperation, perform-Returns,
}

-- Whatever callbacks asyn makes to connect, disconnect, read, read several items and write, and whatever
-- the client answers, if nothing has been read yet of the items that are asked for, all callbacks return,
-- and the calls of the driver follow the
-- protocol: areas and items are read and areas written only while it is connected, and each
-- disconnection gives up one connection and is announced.
pub run-Protocol :
    (operations : List Operation) (d : PortDriver)
    → All IsUnreadOperation operations
    → (p : Performed) × (run operations d ≡ some p)
      × Protocol d.connected p.events p.driver.connected
unfolding run
run-Protocol [] d us = (record { driver = d; events = [] }, refl, done)
run-Protocol (o ∷ operations) d (u, us) =
    let (first, e, t) = perform-Returns o d u in
    let (later, k, ts) = run-Protocol operations first.driver us in
    (
      record { driver = later.driver; events = first.events ++ later.events },
      rw (e, k) refl,
      Protocol-append t ts,
    )

abbrev pub connections : List DriverEvent → ℕ
connections [] = 0
connections (driver_call exception_connect ∷ calls) = 1 + connections calls
connections (_ ∷ calls) = connections calls

abbrev pub disconnections : List DriverEvent → ℕ
disconnections [] = 0
disconnections (driver_call exception_disconnect ∷ calls) = 1 + disconnections calls
disconnections (_ ∷ calls) = disconnections calls

abbrev pub is_disconnected : AsynStatus → Bool
is_disconnected disconnected = true
is_disconnected _ = false

-- One for a connection that is up.
abbrev pub up : Bool → ℕ
up true = 1
up false = 0

Protocol-disconnections :
    {b e : Bool} {calls : List DriverEvent}
    → Protocol b calls e
    → disconnections calls + up e ≤ connections calls + up b
Protocol-disconnections done = omega arith
Protocol-disconnections (connected_to h p r s t) = omega (arith, Protocol-disconnections t)
Protocol-disconnections (not_connected_to h p r s t) = Protocol-disconnections t
Protocol-disconnections (given_up t) = omega (arith, Protocol-disconnections t)
Protocol-disconnections (asked_to_read a n s m u t) = Protocol-disconnections t
Protocol-disconnections (asked_to_write a n s m u b t) = Protocol-disconnections t
Protocol-disconnections (asked_for_items i t) = Protocol-disconnections t

-- If nothing has been read yet of the items that are asked for, a new driver returns from all these callbacks,
-- and never announces more disconnections than connections, and fewer while it is connected.
pub run-disconnections :
    (port_name plc_hostname : Bytes) (plc_port plc_rack plc_slot : ℤ) (priority : ℕ)
    (operations : List Operation)
    → All IsUnreadOperation operations
    → (p : Performed) × (run operations
          (new_driver port_name plc_hostname plc_port plc_rack plc_slot priority)
        ≡ some p)
      × (disconnections p.events + up p.driver.connected ≤ connections p.events)
unfolding new_driver
run-disconnections port_name plc_hostname plc_port plc_rack plc_slot priority operations us =
    let d = new_driver port_name plc_hostname plc_port plc_rack plc_slot priority in
    let (p, e, t) = run-Protocol operations d us in (p, e, omega (arith, Protocol-disconnections t))

-- A read or a write succeeds exactly when the driver is connected and the client answers 0, and is
-- told to be disconnected exactly when the driver is not connected. The driver stays connected unless
-- the client fails with a status for which the connection is given up.
pub ask_client-connected :
    (client : Call → ℕ) (d : PortDriver) (call : Call) (count : Option ℤ)
    → ((ask_client client d call count).driver.connected
        ≡ (d.connected && not (is_connection_error (client call))))
      × (is_success (ask_client client d call count).status ≡ (d.connected && (client call == 0)))
      × (is_disconnected (ask_client client d call count).status ≡ not d.connected)
unfolding ask_client after_error asyn_disconnect
ask_client-connected client d call count = (ground arith, ground arith, ground arith)

-- The driver has registered itself after the call exactly when the call reports success.
pub register_port_driver-registered :
    (manager : Call → AsynStatus) (d : PortDriver)
    → (register_port_driver manager d).driver.registered
      ≡ is_success (register_port_driver manager d).status
unfolding register_port_driver
register_port_driver-registered manager d = ground arith

-- A driver that is connected connects again: the call does not look at the connection.
pub asyn_connect-connected :
    (resolve : Bytes → Bytes) (client : Call → ℕ) (d : PortDriver)
    → ((asyn_connect resolve client (record d { connected = true })).calls
        ≡ (asyn_connect resolve client (record d { connected = false })).calls)
      × ((asyn_connect resolve client (record d { connected = true })).status
          ≡ (asyn_connect resolve client (record d { connected = false })).status)
unfolding asyn_connect
asyn_connect-connected resolve client d = (ground arith, ground arith)
