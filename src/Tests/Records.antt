-- ===== src/Tests/Records.antt =====
-- The record classes and the ring buffer on concrete values.
use docker_applications.Common.{ℕ, ◌<◌, ◌≡◌, refl, some, List, [], ◌∷◌, length, replicate, arith}
use docker_applications.Record.{get_field_value, set_field_value, get_field_bytes, set_field_bytes}
use docker_applications.Record.Untyped.{get_field_bytes-set_field_bytes}
use docker_applications.Record.Fields.{IsField, get_field_value-set_field_value}
use docker_applications.Record.Report
use docker_applications.Record.Report.{fill-on_air}
use docker_applications.Ring
use docker_applications.Ring.Lifo
use docker_applications.Ring.Refine.{
  IsValid, contents, init-IsValid, push_refines, pushes, pushes_refines,
}
use docker_applications.Tests.Data.{fix_at, started, two_fixes}

report-IsField : (i : ℕ) → i < 10 → IsField Report.field_sizes (replicate 21 9) i
report-IsField i h = record { small = omega arith; field_in = h; whole = refl }

-- Setting the altitude of a report, and reading its course.
get_field_value-set_field_value_example :
    (after : List ℕ) × (set_field_value Report.field_sizes 2 (replicate 21 9) 5 1234 ≡ some after)
    × (length after ≡ 21)
    × (get_field_value Report.field_sizes 1 after 7
        ≡ get_field_value Report.field_sizes 1 (replicate 21 9) 7)
get_field_value-set_field_value_example =
    get_field_value-set_field_value Report.field_sizes (replicate 21 9) 5 7 1234
      (report-IsField 5 (omega arith)) (report-IsField 7 (omega arith)) (omega arith)

-- The bytes of the altitude, read into a buffer of four.
get_field_bytes-set_field_bytes_example :
    (after : List ℕ) × (set_field_bytes Report.field_sizes (replicate 21 9) 5 (1 ∷ 2 ∷ []) 2
      ≡ some after)
    × (get_field_bytes Report.field_sizes after 5 (replicate 4 7) 4 ≡ some (2, 1 ∷ 2 ∷ 7 ∷ 7 ∷ []))
get_field_bytes-set_field_bytes_example =
    get_field_bytes-set_field_bytes Report.field_sizes (replicate 21 9) (1 ∷ 2 ∷ []) (replicate 4 7)
      5 4 (report-IsField 5 (omega arith)) refl (omega arith) (omega arith)

abbrev report : Report.Report
report = record {
  timestamp = 1500000000;
  battery_voltage = 81;
  board_temperature = 22;
  lat = 520000000;
  long = 40000000;
  altitude = 12;
  speed = 3;
  course = 90;
  satellite_count = 6;
  time_to_fix = 40;
}

two_fixes-IsValid : IsValid two_fixes
two_fixes-IsValid = record {
  slots = refl;
  top_in = omega arith;
  count_in = omega arith;
  bottom_at = refl;
  bottom_in = omega arith;
  filling = λ _. refl;
}

init-IsValid_example : IsValid (Ring.init started) × (contents (Ring.init started) ≡ [])
init-IsValid_example = init-IsValid started refl

push_refines_example :
    contents (Ring.push two_fixes (fix_at 220)) ≡ fix_at 220 ∷ fix_at 160 ∷ fix_at 100 ∷ []
unfolding Lifo.push
push_refines_example = push_refines two_fixes (fix_at 220) two_fixes-IsValid

pushes_refines_example :
    IsValid (pushes two_fixes (fix_at 1 ∷ fix_at 2 ∷ fix_at 3 ∷ []))
    × (contents (pushes two_fixes (fix_at 1 ∷ fix_at 2 ∷ fix_at 3 ∷ []))
        ≡ fix_at 3 ∷ fix_at 2 ∷ fix_at 1 ∷ fix_at 160 ∷ [])
unfolding Lifo.push
pushes_refines_example =
    pushes_refines (fix_at 1 ∷ fix_at 2 ∷ fix_at 3 ∷ []) two_fixes two_fixes-IsValid
