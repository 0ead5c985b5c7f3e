-- ===== src/ArraySupport/Tests.antt =====
-- Types that are chosen, and the theorems at them.
use s7nodave.ArraySupport.DataTypes.{reads_all, get_plc_data_type_in-reads_all}
use s7nodave.ArraySupport.{dbf_long, get_plc_data_type_in, check_buffer_size}
use s7nodave.Asyn.{uint16, word, bool}
use s7nodave.Prelude.{◌≡◌, refl, some, true, false}

-- Nine bits need two bytes.
needs_two : check_buffer_size 1 9 bool ≡ false
unfolding check_buffer_size
needs_two = refl

get_plc_data_type_in-reads_all_example : reads_all dbf_long uint16 ≡ true
unfolding get_plc_data_type_in
get_plc_data_type_in-reads_all_example =
    get_plc_data_type_in-reads_all word (some uint16) dbf_long refl
