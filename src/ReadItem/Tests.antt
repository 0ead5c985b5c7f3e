-- ===== src/ReadItem/Tests.antt =====
-- Results handed down in an item of four bytes, and the theorems at these items.
use s7nodave.Asyn.{db, success, error}
use s7nodave.Prelude.{◌+◌, ◌≡◌, refl, some, [], ◌∷◌, pos, arith}
use s7nodave.ReadItem.Delivery.{dispatch_delivers, dispatch_fails, AreDelivered, AreFailed}
use s7nodave.ReadItem.{
  Header, internal, request, Forest, nil, cons, dispatch_read_result_to_children,
}

abbrev outer : Header
outer = record {
  area = db;
  area_number = pos 1;
  start_byte = 10;
  read_bytes = 4;
  owner = internal;
  bytes_read = 4;
  status = success;
  buffer = some (110 ∷ 111 ∷ 112 ∷ 113 ∷ []);
}

abbrev inner : Header
inner = record {
  area = db;
  area_number = pos 1;
  start_byte = 12;
  read_bytes = 2;
  owner = request 0;
  bytes_read = 0;
  status = error;
  buffer = some (0 ∷ 0 ∷ []);
}

abbrev one_child : Forest
one_child = cons inner nil nil

handed_down :
    dispatch_read_result_to_children outer one_child
    ≡ some (
        cons
          (record inner { bytes_read = 2; status = success; buffer = some (112 ∷ 113 ∷ []) })
          nil
          nil)
unfolding dispatch_read_result_to_children
handed_down = refl

dispatch_delivers_example :
    (f : Forest) × (dispatch_read_result_to_children outer one_child ≡ some f)
    × AreDelivered (λ i. i + 100) one_child f
dispatch_delivers_example =
    dispatch_delivers (λ i. i + 100) outer (110 ∷ 111 ∷ 112 ∷ 113 ∷ []) one_child
      (record { status = refl; complete = refl; held = refl; bytes = refl })
      ((
        record { same_area = refl; same_number = refl; begins = omega arith; ends = omega arith },
        tt,
        tt,
      ))
      (((0 ∷ 0 ∷ [], refl), tt, tt))

dispatch_fails_example :
    (f : Forest) × (dispatch_read_result_to_children (record outer { status = error }) one_child
      ≡ some f)
    × AreFailed error one_child f
dispatch_fails_example = dispatch_fails (record outer { status = error }) one_child refl
