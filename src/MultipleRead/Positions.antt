-- ===== src/MultipleRead/Positions.antt =====
-- A client of s7nodaveApp/src/PortDriver.cc that serves from a memory, as an example.
use s7nodave.MultipleRead.Memory.{World, AreServed, IsServing, bytes_at}
use s7nodave.Prelude.{
  ℕ, ◌+◌, none, some, refl, List, [], ◌∷◌, ◌++◌, Bytes, length, get_elem?, get_elem?-append_length,
  append_assoc, length-append, subst,
}
use s7nodave.ReadRequest.{Client, DataItem}

-- Each byte of the memory is the number of its position.
abbrev pub positions : World
positions area number position = position

-- A client that serves from it.
abbrev served : List DataItem → ℕ → Bytes
served asked n = elim (get_elem? asked n) [ none ↦ [] | some i ↦ bytes_at positions i ]

abbrev pub serving_client : Client
serving_client = record {
  read_multi_vars = λ k asked. record { status = 0; result = λ i. 0; bytes = served asked };
  read_area = λ k i. (0, bytes_at positions i);
}

all_served :
    (before asked : List DataItem)
    → AreServed positions
        (record { status = 0; result = λ i. 0; bytes = served (before ++ asked) })
        (length before)
        asked
all_served before [] = tt
all_served before (i ∷ asked) = (
  λ c ok. rw (get_elem?-append_length before asked i, served) refl,
  subst
      (λ l.
        AreServed positions (record { status = 0; result = λ j. 0; bytes = served l })
          (length before + 1) asked)
      (append_assoc before (i ∷ []) asked)
      (subst
        (λ n.
          AreServed positions
            (record { status = 0; result = λ j. 0; bytes = served ((before ++ i ∷ []) ++ asked) }) n
            asked)
        (length-append before (i ∷ [])) (all_served (before ++ i ∷ []) asked)),
)

pub serving_client-IsServing : IsServing positions serving_client
serving_client-IsServing = record {
  multi_vars = λ calls asked ok. all_served [] asked;
  one_area = λ calls i c ok. refl;
}
