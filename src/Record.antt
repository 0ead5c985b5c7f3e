-- ===== src/Record.antt =====
-- s7nodaveApp/src/S7nodaveRecord.cc: what the device support of every record shares, here the set-up
-- of a record from its device address.
-- What differs between the classes of records is a parameter: the parameters that a class takes out
-- and the data types that it allows. So are the answers of asyn's manager.
pub mod Setup
pub mod Transfer
pub mod Buffers
pub mod Input
pub mod Output
mod Tests
use s7nodave.Asyn.{PlcDataType, bool, int8, int16, int32, AsynStatus, is_success, PlcDataSize}
use s7nodave.PlcAddress.{PlcAddress, data_size_in_bits}
use s7nodave.Prelude.{
  ℕ, ◌+◌, ◌/◌, ◌%◌, Bool, true, false, not, ◌||◌, Option, none, some, List, [], ◌∷◌, ◌++◌, Bytes,
  ◌==◌, if◌then◌else◌, is_empty,
}
use s7nodave.RecordAddress.{
  DeviceParameters, RecordAddress, Parsed, parse_record_address, create_record_address,
}

-- `RECORD_STATUS_OK` and `RECORD_STATUS_ERROR`.
pub data RecordStatus : Type 0 where
  ok failed : RecordStatus

-- The calls of asyn's manager.
pub data ManagerCall : Type 0 where
  create_asyn_user : ManagerCall
  connect_device : Bytes → ManagerCall
  disconnect : ManagerCall
  free_asyn_user : ManagerCall

pub record Manager : Type 0 where
  pub connect_answer : Bytes → AsynStatus
  pub is_connected : Bool
  pub has_common : Bool
  pub has_s7nodave : Bool

-- What a class of records overrides.
pub record RecordClass : Type 0 where
  pub extract_device_parameters : DeviceParameters → DeviceParameters
  pub get_plc_data_type : PlcAddress → Option PlcDataType → Option PlcDataType

-- A link of another type is `none`; the text is not there if its pointer is null.
abbrev pub DeviceAddress : Type 0
DeviceAddress = Option (Option Bytes)

-- A field for a pointer tells whether it is set.
pub record Device : Type 0 where
  pub pact : Bool
  pub asyn_user : Bool
  pub common : Bool
  pub s7nodave : Bool
  pub address : Option RecordAddress

pub record Initialised : Type 0 where
  pub device : Device
  pub status : RecordStatus
  pub calls : List ManagerCall

-- The base class's choice, which does not look at the type that was asked for.
unfoldable pub default_plc_data_type : PlcAddress → Option PlcDataType → Option PlcDataType
default_plc_data_type a t =
    let size = data_size_in_bits a.data_size in
    if size == 1
    then some bool
    else if size == 8
    then some int8
    else if size == 16
    then some int16
    else if size == 32
    then some int32
    else none

abbrev pub get_io_buffer_size_in_bits : RecordAddress → ℕ
get_io_buffer_size_in_bits a = data_size_in_bits a.plc_address.data_size

-- The bytes of so many bits.
abbrev pub bytes_of_bits : ℕ → ℕ
bytes_of_bits n = n / 8 + (if n % 8 == 0 then 0 else 1)

abbrev pub get_io_buffer_size_in_bytes : RecordAddress → ℕ
get_io_buffer_size_in_bytes a = bytes_of_bits (get_io_buffer_size_in_bits a)

-- An error after these calls: the record is not to be processed, and its user is given up.
unfoldable pub init_record_error : Manager → Device → List ManagerCall → Initialised
init_record_error m d calls = record {
  device = record {
    pact = true;
    asyn_user = false;
    common = false;
    s7nodave = false;
    address = d.address;
  };
  status = failed;
  calls =
      calls
      ++ (if d.asyn_user
          then if m.is_connected then disconnect ∷ free_asyn_user ∷ [] else free_asyn_user ∷ []
          else []);
}

-- The connection of a record with an address.
unfoldable pub connect_record : Manager → Device → RecordAddress → Initialised
connect_record m d a =
    let d' = record d { address = some a } in
    let calls = create_asyn_user ∷ connect_device a.port_name ∷ [] in
    if not (is_success (m.connect_answer a.port_name))
    then init_record_error m d' calls
    else if not m.has_common
    then init_record_error m d' calls
    else if not m.has_s7nodave
    then init_record_error m (record d' { common = true }) calls
    else record {
      device = record d' { common = true; s7nodave = true };
      status = ok;
      calls = calls;
    }

-- The address as far as the class allows it.
unfoldable pub choose_address :
    RecordClass → Bytes → DeviceParameters → PlcAddress → Option PlcDataType → Option RecordAddress
choose_address k port parameters a t =
    if not (is_empty (k.extract_device_parameters parameters))
    then none
    else elim (k.get_plc_data_type a t) [
      | none ↦ none
      | some chosen ↦ create_record_address port a chosen parameters
    ]

-- What was parsed must be valid, with a port, parameters and an address; the type may be missing.
unfoldable pub check_parsed : RecordClass → Parsed → Option RecordAddress
check_parsed k p = if not p.valid || is_empty p.port then none else elim p.parameters [
  | none ↦ none
  | some parameters ↦ elim p.address [
    | none ↦ none
    | some a ↦ choose_address k p.port parameters a p.data_type
  ]
]

-- The address that the link has.
unfoldable pub address_of_link : RecordClass → DeviceAddress → Option RecordAddress
address_of_link k none = none
address_of_link k (some none) = none
address_of_link k (some (some s)) =
    if is_empty s then none else check_parsed k (parse_record_address s)

unfoldable pub init_record : RecordClass → Manager → DeviceAddress → Device → Initialised
init_record k m link d =
    let d' = record d { asyn_user = true } in
    elim (address_of_link k link) [
      | none ↦ init_record_error m d' (create_asyn_user ∷ [])
      | some a ↦ connect_record m d' a
    ]
