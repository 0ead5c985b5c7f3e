-- ===== src/Asyn.antt =====
-- s7nodaveApp/src/s7nodaveAsyn.h: the enumerations that the driver and the device support share.
-- `AsynStatus` is asyn's own enumeration of outcomes, as the code distinguishes them.
use s7nodave.Prelude.{ℕ, Bool, true, false, ◌==◌}

pub data PlcArea : Type 0 where
  db flags inputs outputs timer counter : PlcArea

-- The numbers of the enumerators, by which the enumeration is compared.
abbrev pub area_number_of : PlcArea → ℕ
area_number_of db = 0
area_number_of flags = 1
area_number_of inputs = 2
area_number_of outputs = 3
area_number_of timer = 4
area_number_of counter = 5

abbrev pub area_eq : PlcArea → PlcArea → Bool
area_eq a b = area_number_of a == area_number_of b

pub data PlcDataSize : Type 0 where
  bit byte word dword : PlcDataSize

abbrev pub size_number_of : PlcDataSize → ℕ
size_number_of bit = 0
size_number_of byte = 1
size_number_of word = 2
size_number_of dword = 3

abbrev pub size_eq : PlcDataSize → PlcDataSize → Bool
size_eq a b = size_number_of a == size_number_of b

pub data PlcDataType : Type 0 where
  bool int8 uint8 int16 uint16 int32 uint32 float : PlcDataType

pub data AsynStatus : Type 0 where
  success timeout overflow error disconnected disabled : AsynStatus

abbrev pub is_success : AsynStatus → Bool
is_success success = true
is_success _ = false
