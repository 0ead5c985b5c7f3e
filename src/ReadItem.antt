-- ===== src/ReadItem.antt =====
-- s7nodaveApp/src/PortDriverReadItem.cc: the read items of the driver, and how a result is copied to
-- the items that a larger one includes. Byte positions and lengths are natural numbers.
-- An item is a header and the forest of the items included in it; an item has one owner, so the
-- shared pointers of the code are plain values. The fields of an `asynS7nodaveReadItem` to which an
-- item refers stand in its header.
pub mod Growth
pub mod Contents
pub mod Ranges
pub mod Delivery
pub mod Totality
mod Tests
use s7nodave.Asyn.{PlcArea, area_eq, AsynStatus, success, is_success}
use s7nodave.Prelude.{
  ℕ, ◌+◌, ◌-◌, min, max, Bool, true, false, not, ◌||◌, ◌&&◌, Option, none, some, ◌>>=◌, List, [],
  ◌∷◌, ◌++◌, Bytes, ltb, ◌==◌, if◌then◌else◌, take, drop, ℤ, eqb_ℤ,
}

-- An item with a buffer of its own, or one for the request of that number in the caller's chain.
pub data Owner : Type 0 where
  internal : Owner
  request : ℕ → Owner

abbrev pub is_internal : Owner → Bool
is_internal internal = true
is_internal (request n) = false

-- `bytes_read` and `status` are the internal fields, or those of the caller's request.
pub record Header : Type 0 where
  pub area : PlcArea
  pub area_number : ℤ
  pub start_byte : ℕ
  pub read_bytes : ℕ
  pub owner : Owner
  pub bytes_read : ℕ
  pub status : AsynStatus
  pub buffer : Option Bytes

-- A list of items: the first one's header, what it includes, and the rest.
pub data Forest : Type 0 where
  nil : Forest
  cons : Header → Forest → Forest → Forest

pub record ReadItem : Type 0 where
  pub header : Header
  pub children : Forest

-- One request of the caller: `asynS7nodaveReadItem`.
pub record Request : Type 0 where
  pub area : PlcArea
  pub area_number : ℤ
  pub start_byte : ℕ
  pub read_bytes : ℕ
  pub buffer : Option Bytes
  pub bytes_read : ℕ
  pub status : AsynStatus

unfoldable pub of_request : ℕ → Request → ReadItem
of_request n r = record {
  header = record {
    area = r.area;
    area_number = r.area_number;
    start_byte = r.start_byte;
    read_bytes = r.read_bytes;
    owner = request n;
    bytes_read = r.bytes_read;
    status = r.status;
    buffer = r.buffer;
  };
  children = nil;
}

abbrev pub end_byte : Header → ℕ
end_byte h = h.start_byte + h.read_bytes

abbrev pub set_bytes_read : Header → ℕ → Header
set_bytes_read h n = record h { bytes_read = n; status = success }

abbrev pub set_error_status : Header → AsynStatus → Header
set_error_status h status = record h { bytes_read = 0; status = status }

unfoldable pub includes_no_area_check : Header → Header → Bool
includes_no_area_check h other =
    if ltb other.start_byte h.start_byte
    then false
    else if ltb (end_byte h) (end_byte other)
    then false
    else true

unfoldable pub compare_start_byte : Header → Header → Bool
compare_start_byte first second = ltb first.start_byte second.start_byte

abbrev pub append_forest : Forest → Forest → Forest
append_forest nil g = g
append_forest (cons h below rest) g = cons h below (append_forest rest g)

abbrev pub forest_of : List ReadItem → Forest
forest_of [] = nil
forest_of (i ∷ items) = cons i.header i.children (forest_of items)

abbrev pub lowest_start : ℕ → List ReadItem → ℕ
lowest_start s [] = s
lowest_start s (i ∷ items) = lowest_start (min s i.header.start_byte) items

abbrev pub highest_end : ℕ → List ReadItem → ℕ
highest_end e [] = e
highest_end e (i ∷ items) = highest_end (max e (end_byte i.header)) items

-- The items go behind the children, if the item has the new range; it stays as it was, beside
-- `false`, if it refused to grow.
unfoldable pub extend : ReadItem → List ReadItem → Option Header → ReadItem × Bool
extend this items none = (this, false)
extend this items (some h) =
    (record { header = h; children = append_forest this.children (forest_of items) }, true)

-- asyn's memory allocation, `pasynManager->memMalloc`: a buffer of that size, or none.
module _ (malloc : ℕ → Option Bytes) where
  unfoldable pub new_item : PlcArea → ℤ → ℕ → ℕ → ReadItem
  new_item area area_number start_byte read_bytes = record {
    header = record {
      area = area;
      area_number = area_number;
      start_byte = start_byte;
      read_bytes = read_bytes;
      owner = internal;
      bytes_read = 0;
      status = success;
      buffer = malloc read_bytes;
    };
    children = nil;
  }

  -- The part that the two functions below share: the item grows to a range, or refuses to.
  unfoldable pub resize : Header → ℕ → ℕ → Option Header
  resize h new_start new_end =
      let new_length = new_end - new_start in
      if not (new_start == h.start_byte) || not (new_length == h.read_bytes)
      then (if not (is_internal h.owner) || not (h.bytes_read == 0)
          then none
          else elim (malloc new_length) [
            | none ↦ none
            | some new_buffer ↦ some (record h {
              buffer = some new_buffer;
              start_byte = new_start;
              read_bytes = new_length;
            })
          ])
      else some h

  unfoldable pub add_read_items : ReadItem → List ReadItem → ReadItem × Bool
  add_read_items this items = extend this items (
      resize this.header (lowest_start this.header.start_byte items)
        (highest_end (end_byte this.header) items))

  -- The same for one item, whose area is looked at.
  unfoldable pub add_read_item : ReadItem → ReadItem → ReadItem × Bool
  add_read_item this item =
      if not (area_eq this.header.area item.header.area)
        || not (eqb_ℤ this.header.area_number item.header.area_number)
      then (this, false)
      else extend this (item ∷ []) (
          resize this.header (min this.header.start_byte item.header.start_byte)
            (max (end_byte this.header) (end_byte item.header)))

-- The body of the loop over the children; `none` where the code would copy a negative number of
-- bytes, or from in front of its buffer.
unfoldable pub copy_result : Header → Header → Option Header
copy_result this child =
    if is_success this.status
    then elim this.buffer [
      | none ↦ some (set_bytes_read child 0)
      | some buffer1 ↦ elim child.buffer [
        | none ↦ some (set_bytes_read child 0)
        | some buffer2 ↦
            if this.bytes_read == 0
            then some (set_bytes_read child 0)
            else if ltb child.start_byte this.start_byte
            then none
            else let offset = child.start_byte - this.start_byte in
              if ltb this.bytes_read offset
              then none
              else let n = min (this.bytes_read - offset) child.read_bytes in
                some (record (set_bytes_read child n) {
                  buffer = some (take n (drop offset buffer1) ++ drop n buffer2);
                })
      ]
    ]
    else some (set_error_status child this.status)

unfoldable pub dispatch_read_result_to_children : Header → Forest → Option Forest
unfolding copy_result
dispatch_read_result_to_children this nil = some nil
dispatch_read_result_to_children this (cons child below rest) = do
  child' ← copy_result this child
  below' ← dispatch_read_result_to_children child' below
  rest' ← dispatch_read_result_to_children this rest
  some (cons child' below' rest')
