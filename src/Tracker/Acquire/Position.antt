-- ===== src/Tracker/Acquire/Position.antt =====
-- The position of a fix, in the report and in the ring, and where it comes back.
use docker_applications.Common.{
  ℕ, ◌+◌, ◌-◌, ◌%◌, ◌^◌, ◌<◌, ◌≡◌, refl, ap, ◌∙◌, true, some, ◌∷◌, ◌++◌, get_elem?, arith,
}
use docker_applications.Common.Bytes.{le_bytes, of_bytes-le_bytes}
use docker_applications.Record.{get_field_value, set_field_value}
use docker_applications.Record.GpsFix
use docker_applications.Record.GpsFix.{GpsFixDataRecord}
use docker_applications.Record.Report as Report
use docker_applications.Record.Report.{
  Report, on_air, get_timestamp, set_time_to_fix, set_battery_voltage, set_board_temperature,
}
use docker_applications.Ring.{Ring, push, peek}
use docker_applications.Ring.Refine.{IsValid, push-IsValid, push_refines}
use docker_applications.Ring.Lifo as Lifo
use docker_applications.Ring.Peek.{peek_lem}
use docker_applications.Tracker.Acquire.{store_fix, recall_fix}

-- The report on the air, read and written.
get_timestamp-on_air :
    (p : Report) → p.timestamp < 2 ^ 32 → get_timestamp (on_air p) ≡ some p.timestamp
unfolding get_timestamp get_field_value
get_timestamp-on_air p h = ap some (of_bytes-le_bytes 4 p.timestamp h)

get_lat-on_air : (p : Report) → p.lat < 2 ^ 32 → Report.get_lat (on_air p) ≡ some p.lat
unfolding Report.get_lat get_field_value
get_lat-on_air p h = ap some (of_bytes-le_bytes 4 p.lat h)

get_long-on_air : (p : Report) → p.long < 2 ^ 32 → Report.get_long (on_air p) ≡ some p.long
unfolding Report.get_long get_field_value
get_long-on_air p h = ap some (of_bytes-le_bytes 4 p.long h)

set_time_to_fix-on_air :
    (p : Report) (v : ℕ)
    → set_time_to_fix (on_air p) v ≡ some (on_air (record p { time_to_fix = v }))
unfolding set_time_to_fix set_field_value
set_time_to_fix-on_air p v = refl

-- The record of a fix.
abbrev pub fix_of : Report → GpsFixDataRecord
fix_of p = record {
  buffer = 0 ∷ 0 ∷ (le_bytes 4 p.lat ++ le_bytes 4 p.long);
  timestamp = p.timestamp;
}

-- A report with 32-bit values.
pub record IsReport (p : Report) : Type 0 where
  pub timestamp_small : p.timestamp < 2 ^ 32
  pub lat_small : p.lat < 2 ^ 32
  pub long_small : p.long < 2 ^ 32

abbrev pub took : ℕ → Report → Report
took start p = record p { time_to_fix = (p.timestamp + 2 ^ 32 - start) % 2 ^ 32 % 2 ^ 8 }

pub store_fix-on_air :
    (start : ℕ) (p : Report) (ring : Ring)
    → IsReport p
    → store_fix start (on_air p) ring ≡ some (on_air (took start p), push ring (fix_of p))
unfolding store_fix GpsFix.init GpsFix.set_lat GpsFix.set_long GpsFix.set_timestamp set_field_value
store_fix-on_air start p ring h = rw (get_timestamp-on_air p h.timestamp_small) (
    rw (set_time_to_fix-on_air p ((p.timestamp + 2 ^ 32 - start) % 2 ^ 32 % 2 ^ 8)) (
      rw (get_lat-on_air (took start p) h.lat_small, get_long-on_air (took start p) h.long_small)
        refl))

push-count :
    (ring : Ring) (v : GpsFixDataRecord) → IsValid ring → 0 < (push ring v).valid_item_count
unfolding push
push-count ring v h = ground arith

-- The last value pushed is the one at offset 0.
peek-push :
    (ring : Ring) (v : GpsFixDataRecord) → IsValid ring → peek (push ring v) 0 ≡ some (true, some v)
unfolding Lifo.push
peek-push ring v h =
    (peek_lem (push ring v) 0 (push-IsValid ring v h)).2 (push-count ring v h) (omega arith)
    ∙ ap (λ vs. some (true, get_elem? vs 0)) (push_refines ring v h)

get_lat-fix_of : (p : Report) → p.lat < 2 ^ 32 → GpsFix.get_lat (fix_of p) ≡ some p.lat
unfolding GpsFix.get_lat get_field_value
get_lat-fix_of p h = ap some (of_bytes-le_bytes 4 p.lat h)

get_long-fix_of : (p : Report) → p.long < 2 ^ 32 → GpsFix.get_long (fix_of p) ≡ some p.long
unfolding GpsFix.get_long get_field_value
get_long-fix_of p h = ap some (of_bytes-le_bytes 4 p.long h)

-- A report of a search that timed out.
abbrev pub recalled : Report → ℕ → ℕ → Report
recalled q lat long = record q { lat = lat; long = long; time_to_fix = 0xFF }

recall_fix-on_air :
    (p q : Report) (ring : Ring)
    → IsReport p
    → peek ring 0 ≡ some (true, some (fix_of p))
    → recall_fix (on_air q) ring ≡ some (on_air (recalled q p.lat p.long))
unfolding recall_fix Report.set_lat Report.set_long set_field_value
recall_fix-on_air p q ring h last =
    rw (set_time_to_fix-on_air q 0xFF)
      (rw last (rw (get_lat-fix_of p h.lat_small, get_long-fix_of p h.long_small) refl))

-- With a valid ring and a report whose time and position are 32-bit values: after a fix, neither
-- the report nor the ring faults, the report holds the seconds since the start, modulo 256, and a
-- later search that times out, with no fix stored in between, reports the position of that fix and
-- 255 for the time.
pub recall_fix-store_fix :
    (start : ℕ) (p q : Report) (ring : Ring)
    → IsValid ring
    → IsReport p
    → (store_fix start (on_air p) ring ≡ some (on_air (took start p), push ring (fix_of p)))
      × (recall_fix (on_air q) (push ring (fix_of p)) ≡ some (on_air (recalled q p.lat p.long)))
recall_fix-store_fix start p q ring valid h = (
  store_fix-on_air start p ring h,
  recall_fix-on_air p q (push ring (fix_of p)) h (peek-push ring (fix_of p) valid),
)
