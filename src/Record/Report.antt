-- ===== src/Record/Report.antt =====
-- nodes/SodaqOneDevice/ReportDataRecord.cpp and ReportDataRecord.h: the report that the device
-- sends. The record is its buffer; the board temperature, an `int8_t`, is the byte that stands for
-- it.
use docker_applications.Common.{
  ℕ, ◌≡◌, refl, Bool, not, Option, some, ◌>>=◌, List, [], ◌∷◌, ◌++◌, replicate, length, ◌==◌, arith,
}
use docker_applications.Common.Bytes.{le_bytes}
use docker_applications.Record.{FieldSizes, get_size, get_field_value, set_field_value}

-- REPORT_DATA_FIELD_SIZES, in the order of `enum Fields`
abbrev pub field_sizes : FieldSizes
field_sizes = 4 ∷ 1 ∷ 1 ∷ 4 ∷ 4 ∷ 2 ∷ 2 ∷ 1 ∷ 1 ∷ 1 ∷ []

abbrev pub Buffer : Type 0
Buffer = List ℕ

unfoldable pub get_timestamp : Buffer → Option ℕ
get_timestamp r = get_field_value field_sizes 4 r 0

unfoldable pub get_lat : Buffer → Option ℕ
get_lat r = get_field_value field_sizes 4 r 3

unfoldable pub get_long : Buffer → Option ℕ
get_long r = get_field_value field_sizes 4 r 4

unfoldable pub get_time_to_fix : Buffer → Option ℕ
get_time_to_fix r = get_field_value field_sizes 1 r 9

unfoldable pub set_timestamp : Buffer → ℕ → Option Buffer
set_timestamp r value = set_field_value field_sizes 4 r 0 value

unfoldable pub set_battery_voltage : Buffer → ℕ → Option Buffer
set_battery_voltage r value = set_field_value field_sizes 1 r 1 value

unfoldable pub set_board_temperature : Buffer → ℕ → Option Buffer
set_board_temperature r value = set_field_value field_sizes 1 r 2 value

unfoldable pub set_lat : Buffer → ℕ → Option Buffer
set_lat r value = set_field_value field_sizes 4 r 3 value

unfoldable pub set_long : Buffer → ℕ → Option Buffer
set_long r value = set_field_value field_sizes 4 r 4 value

unfoldable pub set_altitude : Buffer → ℕ → Option Buffer
set_altitude r value = set_field_value field_sizes 2 r 5 value

unfoldable pub set_speed : Buffer → ℕ → Option Buffer
set_speed r value = set_field_value field_sizes 2 r 6 value

unfoldable pub set_course : Buffer → ℕ → Option Buffer
set_course r value = set_field_value field_sizes 1 r 7 value

unfoldable pub set_satellite_count : Buffer → ℕ → Option Buffer
set_satellite_count r value = set_field_value field_sizes 1 r 8 value

unfoldable pub set_time_to_fix : Buffer → ℕ → Option Buffer
set_time_to_fix r value = set_field_value field_sizes 1 r 9 value

unfoldable pub init : Option Buffer
init = set_timestamp (replicate (get_size field_sizes) 0) 0xFFFF_FFFF

unfoldable pub is_valid : Buffer → Option Bool
is_valid r = get_timestamp r >>= λ t. some (not (t == 0xFFFF_FFFF))

-- The values of a report.
pub record Report : Type 0 where
  pub timestamp : ℕ
  pub battery_voltage : ℕ
  pub board_temperature : ℕ
  pub lat : ℕ
  pub long : ℕ
  pub altitude : ℕ
  pub speed : ℕ
  pub course : ℕ
  pub satellite_count : ℕ
  pub time_to_fix : ℕ

-- The ten values on the air: little endian, one behind the other.
abbrev pub on_air : Report → List ℕ
on_air p =
    le_bytes 4 p.timestamp
    ++ (le_bytes 1 p.battery_voltage
        ++ (le_bytes 1 p.board_temperature
            ++ (le_bytes 4 p.lat
                ++ (le_bytes 4 p.long
                    ++ (le_bytes 2 p.altitude
                        ++ (le_bytes 2 p.speed
                            ++ (le_bytes 1 p.course
                                ++ (le_bytes 1 p.satellite_count ++ le_bytes 1 p.time_to_fix))))))))

-- The setters in the order in which `delegateNavPvt` and `getGpsFixAndTransmit` call them.
unfoldable pub fill : Buffer → Report → Option Buffer
unfolding set_timestamp set_battery_voltage set_board_temperature set_lat set_long set_altitude
    set_speed set_course set_satellite_count set_time_to_fix
fill r p = do
  r ← set_altitude r p.altitude
  r ← set_course r p.course
  r ← set_lat r p.lat
  r ← set_long r p.long
  r ← set_satellite_count r p.satellite_count
  r ← set_speed r p.speed
  r ← set_timestamp r p.timestamp
  r ← set_battery_voltage r p.battery_voltage
  r ← set_board_temperature r p.board_temperature
  set_time_to_fix r p.time_to_fix

-- Whatever a buffer of 21 bytes held, once the ten setters have run it is the report on the air.
pub fill-on_air :
    (r : Buffer) (p : Report) → length r ≡ get_size field_sizes → fill r p ≡ some (on_air p)
unfolding fill set_field_value
fill-on_air (a ∷ b ∷ c ∷ d ∷ e ∷ f ∷ g ∷ h ∷ i ∷ j ∷ k ∷ l ∷ m ∷ n ∷ o ∷ q ∷ s ∷ t ∷ u ∷ v ∷ w ∷ [])
      p hr =
    refl
fill-on_air _ p hr = absurd (omega arith)
