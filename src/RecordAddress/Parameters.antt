-- ===== src/RecordAddress/Parameters.antt =====
-- The map of device parameters of s7nodaveApp/src/S7nodaveRecordAddress.cc, as the classes of records use it.
use s7nodave.Prelude.{
  ◌≡◌, refl, true, false, Option, none, some, [], ◌∷◌, Bytes, bytes_eq, if◌then◌else◌, Bool-cases,
  inl, inr, arith,
}
use s7nodave.RecordAddress.{DeviceParameters}

-- `find` of the map.
abbrev pub find_parameter : Bytes → DeviceParameters → Option (Option Bytes)
find_parameter name [] = none
find_parameter name ((n, v) ∷ m) =
    let rest = find_parameter name m in if bytes_eq name n then some v else rest

-- `erase` of the map, whose names are different.
abbrev pub erase_parameter : Bytes → DeviceParameters → DeviceParameters
erase_parameter name [] = []
erase_parameter name ((n, v) ∷ m) =
    let rest = erase_parameter name m in if bytes_eq name n then rest else (n, v) ∷ rest

-- Equal texts are compared alike with any other one.
pub bytes_eq-same : (a b c : Bytes) → bytes_eq a b ≡ true → bytes_eq c a ≡ bytes_eq c b
bytes_eq-same [] [] c h = refl
bytes_eq-same [] (y ∷ b) c h = cc
bytes_eq-same (x ∷ a) [] c h = cc
bytes_eq-same (x ∷ a) (y ∷ b) [] h = refl
bytes_eq-same (x ∷ a) (y ∷ b) (z ∷ c) h = grind (arith, bytes_eq-same a b c)

pub find_parameter-erase_parameter :
    (name other : Bytes) (m : DeviceParameters)
    → bytes_eq name other ≡ false
    → find_parameter name (erase_parameter other m) ≡ find_parameter name m
find_parameter-erase_parameter name other [] h = refl
find_parameter-erase_parameter name other ((n, v) ∷ m) h = elim (Bool-cases (bytes_eq other n)) [
  | inl same ↦
      grind (arith, find_parameter-erase_parameter name other m h, bytes_eq-same other n name same)
  | inr different ↦ grind (arith, find_parameter-erase_parameter name other m h)
]
