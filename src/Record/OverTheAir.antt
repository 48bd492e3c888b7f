-- ===== src/Record/OverTheAir.antt =====
-- nodes/SodaqOneDevice/OverTheAirConfigDataRecord.cpp and OverTheAirConfigDataRecord.h: the
-- configuration that arrives over LoRaWAN. The record is its buffer.
use docker_applications.Common.{
  ℕ, ◌≡◌, refl, ap, ◌≢◌, ◌<◌, ◌^◌, Bool, false, not, Option, some, ◌>>=◌, List, [], ◌∷◌, ◌++◌,
  replicate, ◌==◌, arith, ne→==,
}
use docker_applications.Common.Bytes.{le_bytes, of_bytes-le_bytes}
use docker_applications.Common.Memory.{read_at_prefix, write_at_all}
use docker_applications.Record.{FieldSizes, get_size, get_field_value, set_field_value, copy_from}

-- OVER_THE_AIR_CONFIG_DATA_FIELD_SIZES, in the order of `enum Fields`
abbrev pub field_sizes : FieldSizes
field_sizes = 2 ∷ 2 ∷ 4 ∷ 4 ∷ 2 ∷ []

abbrev pub Buffer : Type 0
Buffer = List ℕ

unfoldable pub get_default_fix_interval : Buffer → Option ℕ
get_default_fix_interval r = get_field_value field_sizes 2 r 0

unfoldable pub get_alternative_fix_interval : Buffer → Option ℕ
get_alternative_fix_interval r = get_field_value field_sizes 2 r 1

unfoldable pub get_alternative_fix_from : Buffer → Option ℕ
get_alternative_fix_from r = get_field_value field_sizes 4 r 2

unfoldable pub get_alternative_fix_to : Buffer → Option ℕ
get_alternative_fix_to r = get_field_value field_sizes 4 r 3

unfoldable pub get_gps_fix_timeout : Buffer → Option ℕ
get_gps_fix_timeout r = get_field_value field_sizes 2 r 4

unfoldable pub set_default_fix_interval : Buffer → ℕ → Option Buffer
set_default_fix_interval r value = set_field_value field_sizes 2 r 0 value

unfoldable pub set_alternative_fix_interval : Buffer → ℕ → Option Buffer
set_alternative_fix_interval r value = set_field_value field_sizes 2 r 1 value

unfoldable pub set_alternative_fix_from : Buffer → ℕ → Option Buffer
set_alternative_fix_from r value = set_field_value field_sizes 4 r 2 value

unfoldable pub set_alternative_fix_to : Buffer → ℕ → Option Buffer
set_alternative_fix_to r value = set_field_value field_sizes 4 r 3 value

unfoldable pub set_gps_fix_timeout : Buffer → ℕ → Option Buffer
set_gps_fix_timeout r value = set_field_value field_sizes 2 r 4 value

unfoldable pub init : Option Buffer
unfolding set_default_fix_interval set_field_value
init = set_default_fix_interval (replicate (get_size field_sizes) 0) 0xFFFF

unfoldable pub is_valid : Buffer → Option Bool
is_valid r = get_default_fix_interval r >>= λ v. some (not (v == 0xFFFF))

-- `init` and then `copyFrom` a message.
unfoldable pub receive : List ℕ → ℕ → Option Buffer
unfolding init
receive message size = init >>= λ r. copy_from field_sizes r message size

-- The five values on the air: little endian, one behind the other.
abbrev pub on_air : ℕ → ℕ → ℕ → ℕ → ℕ → List ℕ
on_air interval alternative from to timeout =
    le_bytes 2 interval
    ++ (le_bytes 2 alternative ++ (le_bytes 4 from ++ (le_bytes 4 to ++ le_bytes 2 timeout)))

-- The five setters on a new record, with any values, write the layout of a message.
setters-on_air :
    (interval alternative from to timeout : ℕ)
    → (do
      r0 ← init
      r1 ← set_default_fix_interval r0 interval
      r2 ← set_alternative_fix_interval r1 alternative
      r3 ← set_alternative_fix_from r2 from
      r4 ← set_alternative_fix_to r3 to
      set_gps_fix_timeout r4 timeout)
      ≡ some (on_air interval alternative from to timeout)
unfolding init set_default_fix_interval set_alternative_fix_interval set_alternative_fix_from
    set_alternative_fix_to set_gps_fix_timeout set_field_value
setters-on_air interval alternative from to timeout = refl

-- A message of five little-endian values, whatever follows it in the receive buffer, is received
-- with each field at its value, and is valid unless the interval is the reserved one.
pub receive-on_air :
    (interval alternative from to timeout : ℕ) (rest : List ℕ)
    → interval < 2 ^ 16
    → alternative < 2 ^ 16
    → from < 2 ^ 32
    → to < 2 ^ 32
    → timeout < 2 ^ 16
    → (r : Buffer) × (receive (on_air interval alternative from to timeout ++ rest) 14 ≡ some r)
      × (get_default_fix_interval r ≡ some interval)
      × (get_alternative_fix_interval r ≡ some alternative)
      × (get_alternative_fix_from r ≡ some from)
      × (get_alternative_fix_to r ≡ some to)
      × (get_gps_fix_timeout r ≡ some timeout)
      × (is_valid r ≡ some (not (interval == 0xFFFF)))
unfolding receive copy_from is_valid get_default_fix_interval get_alternative_fix_interval
    get_alternative_fix_from get_alternative_fix_to get_gps_fix_timeout get_field_value
receive-on_air interval alternative from to timeout rest hi ha hf ht hg = (
  on_air interval alternative from to timeout,
  ground (
    arith,
    read_at_prefix (on_air interval alternative from to timeout) rest,
    write_at_all (on_air interval alternative from to timeout) (0xFF ∷ 0xFF ∷ replicate 12 0) refl,
  ),
  ap some (of_bytes-le_bytes 2 interval hi),
  ap some (of_bytes-le_bytes 2 alternative ha),
  ap some (of_bytes-le_bytes 4 from hf),
  ap some (of_bytes-le_bytes 4 to ht),
  ap some (of_bytes-le_bytes 2 timeout hg),
  ap (λ v. some (not (v == 0xFFFF))) (of_bytes-le_bytes 2 interval hi),
)

-- A message of any other size is ignored: the record stays as initialised, which is invalid.
pub receive_other_size :
    (message : List ℕ) (size : ℕ)
    → size ≢ 14
    → (r : Buffer) × (receive message size ≡ some r) × (is_valid r ≡ some false)
unfolding receive copy_from is_valid get_default_fix_interval get_field_value
receive_other_size message size h = (0xFF ∷ 0xFF ∷ replicate 12 0, rw (ne→== size 14 h), refl)
