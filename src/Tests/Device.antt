-- ===== src/Tests/Device.antt =====
-- The sketch on concrete values.
use docker_applications.Common.{
  ℕ, ◌+◌, ◌≡◌, ◌≢◌, ◌⊎◌, refl, true, false, none, some, List, [], ◌∷◌, ◌++◌, replicate, arith,
}
use docker_applications.Common.Memory.{slice}
use docker_applications.Config.{check_config}
use docker_applications.Record.GpsFix
use docker_applications.Record.GpsFix.{GpsFixDataRecord}
use docker_applications.Ring.{peek}
use docker_applications.Tracker.Hex.{
  HwEui, get_hw_eui_and_firm_ver, convert_and_check_hex_array, set_dev_addr_or_eui_to_hw_eui,
}
use docker_applications.Tracker.Hex.Convert.{hex_of}
use docker_applications.Tracker.Hex.Eui.{convert-set_dev_addr}
use docker_applications.Tracker.Schedule.{
  Clock, run_default_fix_event, run_alternative_fix_event, update_config_over_the_air,
}
use docker_applications.Tracker.Schedule.Window.{InWindow, one_fix_event}
use docker_applications.Tracker.Schedule.OverTheAirUpdate.{update_ignores}
use docker_applications.Tracker.Transmit.{done, out_of_fuel, transmit, finished, on_success}
use docker_applications.Tracker.Transmit.Attempts.{transmit_succeeds, transmit_gives_up}
use docker_applications.Tracker.Transmit.Total.{transmit_ends}
use docker_applications.Tracker.SendBuffer.{SendBuffer, update_gps_send_buffer}
use docker_applications.Tracker.SendBuffer.Message.{two_coordinates}
use docker_applications.Tests.Data.{
  flash_cell, morning, committed, two_fixes, fix_at, third_time, silent, sketch, send_buffer,
}

-- After two failures the third attempt succeeds.
transmit_succeeds_example :
    transmit flash_cell third_time sketch
    ≡ finished flash_cell 2 true (on_success flash_cell third_time sketch)
transmit_succeeds_example =
    transmit_succeeds flash_cell third_time sketch 2 refl (omega arith) (omega arith)
      (refl, (refl, tt)) refl

-- Six attempts fail.
transmit_gives_up_example :
    transmit flash_cell silent sketch ≡ done (record sketch { num_tx_retries = 6 }, false)
transmit_gives_up_example =
    transmit_gives_up flash_cell silent sketch refl (omega arith)
      (refl, (refl, (refl, (refl, (refl, (refl, tt))))))

transmit_ends_example : transmit flash_cell silent sketch ≢ out_of_fuel
transmit_ends_example = transmit_ends flash_cell silent sketch (omega arith)

morning_checked : check_config morning ≡ true
unfolding check_config
morning_checked = refl

abbrev nine : Clock
nine = record { is_rtc_initialized = true; hours = 9; minutes = 0 }

-- A sketch that counts its fixes, at nine o'clock.
one_fix_event_example :
    (InWindow morning nine
      × (run_default_fix_event (λ n. n + 1) (λ n. morning) (λ n. nine) 3 ≡ 3)
      × (run_alternative_fix_event (λ n. n + 1) (λ n. morning) (λ n. nine) 3 ≡ 4))
    ⊎ ((¬ InWindow morning nine)
        × (run_default_fix_event (λ n. n + 1) (λ n. morning) (λ n. nine) 3 ≡ 4)
        × (run_alternative_fix_event (λ n. n + 1) (λ n. morning) (λ n. nine) 3 ≡ 3))
one_fix_event_example =
    one_fix_event (λ (n : ℕ). n + 1) (λ n. morning) (λ n. nine) 3 morning_checked

update_ignores_example :
    update_config_over_the_air flash_cell true (1 ∷ 2 ∷ []) 2 committed ≡ some (committed, none)
update_ignores_example = update_ignores flash_cell true committed (1 ∷ 2 ∷ []) 2 (omega arith)

-- A module whose EUI has two bytes, read for the first time.
abbrev unread : HwEui
unread = record { is_initialized = false; bytes = 0 ∷ 0 ∷ [] }

abbrev known : HwEui
known = record { is_initialized = true; bytes = 0xA5 ∷ 0x3C ∷ [] }

convert-set_dev_addr_example :
    (key after : List ℕ) × (set_dev_addr_or_eui_to_hw_eui
        (some false)
        (2, 0xA5 ∷ 0x3C ∷ [])
        unread
        (replicate 4 0x30 ++ (0 ∷ []))
      ≡ some (known, key))
    × (key ≡ hex_of (0xA5 ∷ 0x3C ∷ []) ++ (0 ∷ []))
    × (convert_and_check_hex_array (replicate 3 9) key 2 ≡ some (true, after))
    × (slice 0 2 after ≡ 0xA5 ∷ 0x3C ∷ [])
    × (convert_and_check_hex_array (replicate 2 9) key 2 ≡ none)
unfolding get_hw_eui_and_firm_ver
convert-set_dev_addr_example =
    convert-set_dev_addr (some false) (2, 0xA5 ∷ 0x3C ∷ []) unread known
      (replicate 4 0x30 ++ (0 ∷ [])) (replicate 3 9) (replicate 2 9) refl refl
      (omega arith, (omega arith, tt)) (omega arith) (omega arith) refl

previous_fix : peek two_fixes 1 ≡ some (true, some (fix_at 100))
unfolding peek
previous_fix = refl

previous_fix_valid : GpsFix.is_valid (fix_at 100) ≡ true
unfolding GpsFix.is_valid
previous_fix_valid = refl

two_coordinates_example :
    (updated : GpsFixDataRecord) × (after : SendBuffer) × (GpsFix.update_previous_fix_value
        (fix_at 100)
        84215045
      ≡ some updated)
    × (update_gps_send_buffer two_fixes (replicate 21 5) 2 send_buffer ≡ some after)
    × (after.size ≡ 31)
    × (slice 0 20 after.bytes ≡ replicate 20 5)
    × (slice 20 10 after.bytes ≡ updated.buffer)
    × (slice 30 1 after.bytes ≡ 0xAA ∷ [])
two_coordinates_example =
    two_coordinates two_fixes (replicate 21 5) send_buffer refl refl (fix_at 100) previous_fix
      previous_fix_valid refl (omega arith) (omega arith)
