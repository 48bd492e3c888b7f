-- ===== src/Record/GpsFix.antt =====
-- nodes/SodaqOneDevice/GpsFixDataRecord.cpp and GpsFixDataRecord.h: a position with its time. The
-- buffer holds PreviousFix, Lat and Long; the timestamp stands beside it and is not sent.
use docker_applications.Common.{
  ap, ◌∙◌, ◌++◌, ℕ, ◌+◌, ◌-◌, ◌%◌, ◌^◌, ◌<◌, ◌≡◌, refl, Bool, false, not, Option, some, ◌>>=◌, List,
  [], ◌∷◌, replicate, length, ltb, ◌==◌, if◌then◌else◌, min, arith,
}
use docker_applications.Common.Bytes.{le_bytes, of_bytes-le_bytes}
use docker_applications.Common.Memory.{length-splice}
use docker_applications.Record.Layout.{size_of}
use docker_applications.Record.{FieldSizes, get_size, get_field_value, set_field_value}
use docker_applications.Record.Fields.{
  IsField, written, get_field_value-written, set_field_value-eq,
}

-- GPS_FIX_DATA_FIELD_SIZES, in the order of `enum Fields`
abbrev pub field_sizes : FieldSizes
field_sizes = 2 ∷ 4 ∷ 4 ∷ []

pub record GpsFixDataRecord : Type 0 where
  pub buffer : List ℕ
  pub timestamp : ℕ

abbrev pub no_timestamp : ℕ
no_timestamp = 0xFFFF_FFFF

unfoldable pub init : GpsFixDataRecord → GpsFixDataRecord
init r = record { buffer = replicate (get_size field_sizes) 0; timestamp = no_timestamp }

unfoldable pub is_valid : GpsFixDataRecord → Bool
is_valid r = not (r.timestamp == no_timestamp)

unfoldable pub get_previous_fix : GpsFixDataRecord → Option ℕ
get_previous_fix r = get_field_value field_sizes 2 r.buffer 0

unfoldable pub get_lat : GpsFixDataRecord → Option ℕ
get_lat r = get_field_value field_sizes 4 r.buffer 1

unfoldable pub get_long : GpsFixDataRecord → Option ℕ
get_long r = get_field_value field_sizes 4 r.buffer 2

abbrev with_buffer : GpsFixDataRecord → Option (List ℕ) → Option GpsFixDataRecord
with_buffer r b = b >>= λ buffer. some (record r { buffer = buffer })

unfoldable pub set_previous_fix : GpsFixDataRecord → ℕ → Option GpsFixDataRecord
set_previous_fix r value = with_buffer r (set_field_value field_sizes 2 r.buffer 0 value)

unfoldable pub set_lat : GpsFixDataRecord → ℕ → Option GpsFixDataRecord
set_lat r value = with_buffer r (set_field_value field_sizes 4 r.buffer 1 value)

unfoldable pub set_long : GpsFixDataRecord → ℕ → Option GpsFixDataRecord
set_long r value = with_buffer r (set_field_value field_sizes 4 r.buffer 2 value)

unfoldable pub set_timestamp : GpsFixDataRecord → ℕ → GpsFixDataRecord
set_timestamp r value = record r { timestamp = value }

-- `uint32_t val = now - getTimestamp()` wraps; the setter takes 16 bits.
unfoldable pub update_previous_fix_value : GpsFixDataRecord → ℕ → Option GpsFixDataRecord
unfolding set_previous_fix
update_previous_fix_value r now =
    let val = (now + 2 ^ 32 - r.timestamp) % 2 ^ 32 in
    set_previous_fix r (if ltb 0xFFFF val then 0xFFFF else val % 2 ^ 16)

-- The buffer is as large as the fields.
abbrev pub IsWhole : GpsFixDataRecord → Type 0
IsWhole r = length r.buffer ≡ get_size field_sizes

module _ (r : GpsFixDataRecord) (whole : IsWhole r) where
  field : (i : ℕ) → i < 3 → IsField field_sizes r.buffer i
  field i h = record { small = omega arith; field_in = h; whole = whole }

  -- What field `j` reads after the setter of field `i`.
  reads :
      (i j v : ℕ)
      → i < 3
      → j < 3
      → v < 256 ^ size_of field_sizes i
      → get_field_value field_sizes (size_of field_sizes j) (written field_sizes r.buffer i v) j ≡ (
          if j == i then some v else get_field_value field_sizes (size_of field_sizes j) r.buffer j)
  reads i j v hi hj hv =
      get_field_value-written field_sizes r.buffer i v (field i hi) j (field j hj) hv

-- After `updatePreviousFixValue` the record is as before but for PreviousFix, which holds the
-- seconds since the fix, at most 65535. The clock may have wrapped once since the fix.
pub get_previous_fix-update :
    (r : GpsFixDataRecord) (now : ℕ)
    → IsWhole r
    → r.timestamp < 2 ^ 32
    → now < 2 ^ 32
    → (after : GpsFixDataRecord) × (update_previous_fix_value r now ≡ some after)
      × (get_previous_fix after ≡ some (min ((now + 2 ^ 32 - r.timestamp) % 2 ^ 32) 0xFFFF))
      × (get_lat after ≡ get_lat r)
      × (get_long after ≡ get_long r)
      × (after.timestamp ≡ r.timestamp)
      × IsWhole after
unfolding get_previous_fix get_lat get_long update_previous_fix_value
get_previous_fix-update r now whole ht hn =
    let val : ℕ = (now + 2 ^ 32 - r.timestamp) % 2 ^ 32 in
    let v : ℕ = min val 0xFFFF in
    let in_value : (if ltb 0xFFFF val then 0xFFFF else val % 2 ^ 16) ≡ v = ground arith in
    let read = λ (j : ℕ) (hj : j < 3). reads r whole 0 j v (omega arith) hj (omega arith) in
    (
      record r { buffer = written field_sizes r.buffer 0 v },
      rw (in_value, set_field_value-eq field_sizes r.buffer 0 v (field r whole 0 (omega arith))),
      read 0 (omega arith),
      read 1 (omega arith),
      read 2 (omega arith),
      refl,
      length-splice 0 (le_bytes 2 v) r.buffer ∙ whole,
    )

-- The fix that `getGpsFixAndTransmit` stores: an initialised record is invalid and at 0, 0; with
-- position and time set it reads them back, and is valid unless the time is the reserved one.
pub stored_fix :
    (r : GpsFixDataRecord) (lat long time : ℕ)
    → lat < 2 ^ 32
    → long < 2 ^ 32
    → (is_valid (init r) ≡ false)
      × (get_lat (init r) ≡ some 0)
      × (get_long (init r) ≡ some 0)
      × ((fix : GpsFixDataRecord) × ((set_lat (init r) lat >>= λ a.
              set_long a long >>= λ b. some (set_timestamp b time))
            ≡ some fix)
          × (get_lat fix ≡ some lat)
          × (get_long fix ≡ some long)
          × (fix.timestamp ≡ time)
          × (is_valid fix ≡ not (time == no_timestamp))
          × IsWhole fix)
unfolding init is_valid get_lat get_long set_lat set_long set_timestamp get_field_value
    set_field_value
stored_fix r lat long time hlat hlong = (
  refl,
  refl,
  refl,
  (
    record { buffer = 0 ∷ 0 ∷ (le_bytes 4 lat ++ le_bytes 4 long); timestamp = time },
    refl,
    ap some (of_bytes-le_bytes 4 lat hlat),
    ap some (of_bytes-le_bytes 4 long hlong),
    refl,
    refl,
    refl,
  ),
)
