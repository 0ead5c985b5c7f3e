-- ===== src/Lib.antt =====
-- s7nodave: EPICS device support for Siemens S7 PLCs. Records hold addresses of PLC memory; the
-- device support turns them into requests, and the port driver sends these through the Snap7 client
-- and copies what comes back. The files below model the core of it, named for its parts.
--
-- Asyn: s7nodaveApp/src/s7nodaveAsyn.h, the enumerations of areas, sizes and types.
-- Utilities: s7nodaveApp/src/utilities.cc. `to_upper` is `toUpper`, and so on; a string is a list of
--   bytes, and a function that changes its argument returns the new one.
-- PlcAddress: s7nodaveApp/src/PlcAddress.cc. `create` and `create_from_string` are the two `create`
--   functions, `to_string` is `toString`; the stages of the parser are functions of their own
--   (`parse_area`, `parse_db_number`, `parse_data_size`, `parse_start`). `int` is ℤ, and `atoi` is
--   glibc's: the value is held at 2 ^ 63 - 1 and cut to 32 bits.
-- RecordAddress: s7nodaveApp/src/S7nodaveRecordAddress.cc. `parse_record_address` runs through its
--   stages in functions of their own; `Parsed` is the tuple that it returns.
-- LongSupport: s7nodaveApp/src/LongSupport.cc, and `convert_from_or_to_plc_byte_order` of
--   s7nodaveApp/src/S7nodaveRecord.cc, on a little-endian host. A failed assertion is `none`.
-- BinarySupport, MultiBinarySupport: s7nodaveApp/src/BinarySupport.cc and MultiBinarySupport.cc, with
--   the masks of multi-binary records as operations on bits.
-- StringSupport: s7nodaveApp/src/StringSupport.cc, on texts of 40 bytes with `strncpy` written out.
-- AnalogSupport: s7nodaveApp/src/AnalogSupport.cc, and S7nodaveAiRecord.h and S7nodaveAoRecord.h, which use
--   it. The arithmetic of `double` is a record of operations, a parameter.
-- ArraySupport: s7nodaveApp/src/ArraySupport.cc, the tables of data types and `checkBufferSize`;
--   ArraySupport.Elements has `readInternal` and `writeInternal` with the conversions of numbers, flags
--   and texts, whose templates are functions of the type of a number.
-- ReadItem: s7nodaveApp/src/PortDriverReadItem.cc and .h. An item is a header with the forest of the
--   items that it includes; an item has one owner, so the shared pointers are values. Byte positions
--   are natural numbers. asyn's allocator is a parameter.
-- ReadOptimizer: s7nodaveApp/src/PortDriverReadOptimizer.cc. `optimize_within_area` has its two
--   loops, `absorb_all` and `join_blocks`, and `create_optimized_list` groups the requests. Both
--   loops take the number of items as fuel: each round removes at least one.
-- PortDriver: s7nodaveApp/src/PortDriver.cc, registration, connection, single reads and writes. The
--   Snap7 client and asyn's manager are parameters that answer each call with a status.
--   PortDriver.Callbacks has `run`, which performs a sequence of asyn's callbacks, the read of several items
--   included, and PortDriver.Protocol the order of calls that they keep.
-- ReadRequest: `sendRequestToPlc` and `processPlcReadResult` of s7nodaveApp/src/PortDriver.cc. The
--   items are in a store and lists have their numbers; `step` is a round of the loop, on fuel, and
--   for n items n*(2*n+2)+n+1 rounds are enough.
-- MultipleRead: `asynPlcReadMultipleItems`, which joins a chain of requests with the optimizer, sends
--   the items, and hands the results back through the items to the requests. MultipleRead.Memory has the
--   memory of the PLC from which a client may serve. What it serves is stated for the areas that count in
--   bytes: for timers and counters the client takes words as the unit, and nothing is assumed of them.
-- Record: s7nodaveApp/src/S7nodaveRecord.cc, `initRecord`; Record.Transfer has `readFromPlc` and
--   `writeToPlc`, with the moves of bits. Record.Input and Record.Output are the state machines of
--   s7nodaveApp/src/S7nodaveInputRecord.cc and S7nodaveOutputRecord.cc: a step gives the state and
--   what happened to buffers and queues, and a run is a sequence of steps in any order.
--   Record.Buffers has the three places in which a record may own a buffer: its data, the step that goes on,
--   and the second buffer for bits. A buffer that is given to a poll group is no longer the record's.
-- PollGroup: s7nodaveApp/src/PollGroup.cc. A requester is a number; a round gives the responses and
--   the calls of the port, whose driver may be that of `MultipleRead`. A request with a negative start byte
--   is outside of the model.
-- Prelude: tests on numbers, lists, integers and texts that the parts share.
--
-- A poll group collects the requests of its records and reads them through the port driver. The driver
-- joins them with the optimizer, whose items are read items, sends them, and hands the results back
-- through the same items; the records take the bytes of their responses as new data.
--
-- Not modelled: traces and messages, which change no state; the release of memory of the driver; the
-- mutexes, whose guarded sections are steps; the timers of poll groups and their intervals; the small
-- classes of the other record types, which forward to the support of their type; the overflow of an
-- `int` in sums of positions; the Snap7 library, whose client is a parameter.
pub mod Prelude
pub mod Asyn
pub mod Utilities
pub mod PlcAddress
pub mod RecordAddress
pub mod LongSupport
pub mod BinarySupport
pub mod MultiBinarySupport
pub mod StringSupport
pub mod AnalogSupport
pub mod ArraySupport
pub mod ReadItem
pub mod ReadOptimizer
pub mod PortDriver
pub mod ReadRequest
pub mod MultipleRead
pub mod Record
pub mod PollGroup
