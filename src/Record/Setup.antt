-- ===== src/Record/Setup.antt =====
-- What s7nodaveApp/src/S7nodaveRecord.cc leaves behind after it set up a record.
use s7nodave.Asyn.{PlcDataType, is_success}
use s7nodave.PlcAddress.{PlcAddress, data_size_in_bits}
use s7nodave.Prelude.{
  ◌≡◌, refl, Bool, true, false, not, ◌||◌, Option, none, some, List, [], ◌∷◌, ◌++◌, Bytes, is_empty,
  if◌then◌else◌, Bool-cases, Option-cases, inl, inr, unless_some, sym, ◌∙◌, some_inj,
}
use s7nodave.Record.{
  ok, failed, ManagerCall, create_asyn_user, connect_device, disconnect, free_asyn_user, Manager,
  RecordClass, DeviceAddress, Device, Initialised, init_record_error, connect_record,
  choose_address, check_parsed, address_of_link, init_record,
}
use s7nodave.RecordAddress.Sound.{create_record_address_iff}
use s7nodave.RecordAddress.{
  DeviceParameters, RecordAddress, Parsed, parse_record_address, create_record_address,
  bits_of_type,
}

-- What the address of a record that is set up is like.
abbrev pub IsUsable : RecordAddress → Type 0
IsUsable a =
    (is_empty a.port_name ≡ false)
    × (data_size_in_bits a.plc_address.data_size ≡ bits_of_type a.plc_data_type)

-- The calls that were made for a user, with the port that was tried.
abbrev opening : Option Bytes → List ManagerCall
opening none = create_asyn_user ∷ []
opening (some port) = create_asyn_user ∷ connect_device port ∷ []

abbrev closing : Bool → List ManagerCall
closing true = disconnect ∷ free_asyn_user ∷ []
closing false = free_asyn_user ∷ []

nothing : {A : Type 0} {a : A} → Option.none ≡ Option.some a → ⊥
nothing e = cc

-- The manager connects the port of the link's address, which is usable, and has both interfaces.
abbrev pub IsServed : RecordClass → Manager → DeviceAddress → RecordAddress → Type 0
IsServed k m link a =
    (address_of_link k link ≡ some a)
    × IsUsable a
    × (is_success (m.connect_answer a.port_name) ≡ true)
    × (m.has_common ≡ true)
    × (m.has_s7nodave ≡ true)

-- A record is ready with the usable address of its link if the manager connected its port and has
-- both interfaces; otherwise it is out of use, and its user was disconnected if it was connected,
-- and freed.
pub data IsSettled (k : RecordClass) (m : Manager) (link : DeviceAddress) (d : Device)
    : Initialised → Type 0 where
  ready :
      (a : RecordAddress)
      → IsServed k m link a
      → IsSettled k m link d (record {
        device = record {
          pact = d.pact;
          asyn_user = true;
          common = true;
          s7nodave = true;
          address = some a;
        };
        status = ok;
        calls = opening (some a.port_name);
      })
  out_of_use :
      (address : Option RecordAddress) (port : Option Bytes)
      → ((a : RecordAddress) → ¬ IsServed k m link a)
      → IsSettled k m link d (record {
        device = record {
          pact = true;
          asyn_user = false;
          common = false;
          s7nodave = false;
          address = address;
        };
        status = failed;
        calls = opening port ++ closing m.is_connected;
      })

module _ (k : RecordClass) (m : Manager) (link : DeviceAddress) (d : Device) where
  abbrev Settled : Initialised → Type 0
  Settled = IsSettled k m link d

  closing_if :
      (b : Bool) → (if b then disconnect ∷ free_asyn_user ∷ [] else free_asyn_user ∷ []) ≡ closing b
  closing_if true = refl
  closing_if false = refl

  init_record_error-IsSettled :
      (d' : Device) (port : Option Bytes)
      → Bool.true ≡ d'.asyn_user
      → ((a : RecordAddress) → ¬ IsServed k m link a)
      → Settled (init_record_error m d' (opening port))
  unfolding init_record_error
  init_record_error-IsSettled d' port user unserved =
      rw (← user, init_record_error, closing_if m.is_connected)
        (out_of_use d'.address port unserved)

  not_success : (b : Bool) → not b ≡ true → b ≡ true → ⊥
  not_success true h e = cc
  not_success false h e = cc

  is_true : (b : Bool) → not b ≡ false → b ≡ true
  is_true true h = refl
  is_true false h = cc

  -- The link has no other address.
  refused_port :
      (a a' : RecordAddress)
      → address_of_link k link ≡ some a
      → not (is_success (m.connect_answer a.port_name)) ≡ true
      → ¬ IsServed k m link a'
  refused_port a a' e refused (e', u, connected, i, j) =
      let same : a ≡ a' = some_inj (sym e ∙ e') in not_success _ refused (rw same connected)

  connect_record-IsSettled :
      (d' : Device) (a : RecordAddress)
      → Bool.true ≡ d'.asyn_user
      → d'.pact ≡ d.pact
      → address_of_link k link ≡ some a
      → IsUsable a
      → Settled (connect_record m d' a)
  unfolding connect_record
  connect_record-IsSettled d' a user pact e usable =
      elim (Bool-cases (not (is_success (m.connect_answer a.port_name)))) [
        | inl refused ↦
            rw (refused, connect_record)
              (init_record_error-IsSettled _ (some a.port_name) user
                (λ a'. refused_port a a' e refused))
        | inr connected ↦ elim (Bool-cases (not m.has_common)) [
          | inl missing ↦
              rw (connected, missing, connect_record)
                (init_record_error-IsSettled _ (some a.port_name) user
                  (λ a' s. not_success _ missing s.3))
          | inr common ↦ elim (Bool-cases (not m.has_s7nodave)) [
            | inl missing ↦
                rw (connected, common, missing, connect_record)
                  (init_record_error-IsSettled _ (some a.port_name) user
                    (λ a' s. not_success _ missing s.4))
            | inr found ↦
                rw (connected, common, found, connect_record, pact, ← user)
                  (ready a (e, usable, is_true _ connected, is_true _ common, is_true _ found))
          ]
        ]
      ]

-- An address is usable, and a class knows each of its parameters.
abbrev pub IsAccepted : RecordClass → RecordAddress → Type 0
IsAccepted k a = IsUsable a × (k.extract_device_parameters a.record_parameters ≡ [])

is_empty-not {ℓ} : {A : Type ℓ} {m : List A} → not (is_empty m) ≡ false → m ≡ []
is_empty-not {m = []} h = refl
is_empty-not {m = x ∷ m} h = cc

create_record_address-IsAccepted :
    (k : RecordClass) (port : Bytes) (p : PlcAddress) (t : PlcDataType)
    (parameters : DeviceParameters) {a : RecordAddress}
    → k.extract_device_parameters parameters ≡ []
    → create_record_address port p t parameters ≡ some a
    → IsAccepted k a
create_record_address-IsAccepted k port p t parameters {a} known e =
    let (same, named, size) =
      (create_record_address_iff
          (record {
            port_name = port;
            plc_address = p;
            plc_data_type = t;
            record_parameters = parameters;
          })
          a).0
        e in
    rw same ((named, size), known)

choose_address-IsAccepted :
    (k : RecordClass) (port : Bytes) (parameters : DeviceParameters) (p : PlcAddress)
    (t : Option PlcDataType) {a : RecordAddress}
    → choose_address k port parameters p t ≡ some a
    → IsAccepted k a
unfolding choose_address
choose_address-IsAccepted k port parameters p t e =
    let (left, e') = unless_some (not (is_empty (k.extract_device_parameters parameters))) _ e in
    elim (Option-cases (k.get_plc_data_type p t)) [
      | inl none_chosen ↦ absurd (nothing (rw none_chosen at e'))
      | inr (chosen, c) ↦
          create_record_address-IsAccepted k port p chosen parameters (is_empty-not left)
            (rw c at e')
    ]

check_parsed-IsAccepted :
    (k : RecordClass) (p : Parsed) {a : RecordAddress} → check_parsed k p ≡ some a → IsAccepted k a
unfolding check_parsed
check_parsed-IsAccepted k p e =
    let (_, e') = unless_some (not p.valid || is_empty p.port) _ e in
    elim (Option-cases p.parameters) [
      | inl missing ↦ absurd (nothing (rw missing at e'))
      | inr (parameters, found) ↦ elim (Option-cases p.address) [
        | inl missing ↦ absurd (nothing (rw (found, missing) at e'))
        | inr (a, read) ↦
            choose_address-IsAccepted k p.port parameters a p.data_type (rw (found, read) at e')
      ]
    ]

pub address_of_link-IsAccepted :
    (k : RecordClass) (link : DeviceAddress) {a : RecordAddress}
    → address_of_link k link ≡ some a
    → IsAccepted k a
unfolding address_of_link
address_of_link-IsAccepted k none e = absurd (nothing e)
address_of_link-IsAccepted k (some none) e = absurd (nothing e)
address_of_link-IsAccepted k (some (some s)) e =
    check_parsed-IsAccepted k (parse_record_address s) (unless_some (is_empty s) _ e).1

-- After the set-up of a record, either it is connected, with both interfaces, under the address of its
-- link, whose port has a name and whose type has the size of the memory, and may be processed as before;
-- or it is kept from being processed, has no interface, and its user was disconnected if it was
-- connected, and then freed. It is the first exactly if the link has such an address, the port was
-- connected, and the manager has both interfaces.
pub init_record-IsSettled :
    (k : RecordClass) (m : Manager) (link : DeviceAddress) (d : Device)
    → IsSettled k m link d (init_record k m link d)
unfolding init_record
init_record-IsSettled k m link d = elim (Option-cases (address_of_link k link)) [
  | inl invalid ↦
      rw (invalid, init_record)
        (init_record_error-IsSettled k m link d _ none refl (λ a s. nothing (sym invalid ∙ s.0)))
  | inr (a, e) ↦
      rw (e, init_record)
        (connect_record-IsSettled k m link d _ a refl refl e
          ((address_of_link-IsAccepted k link e).0))
]
