-- ===== src/Tracker/SendBuffer.antt =====
-- `updateGpsSendBuffer` of nodes/SodaqOneDevice/SodaqOneDevice.ino: the report and the previous
-- fixes in the buffer that is sent. `none` is an access out of the bounds of an array.
pub mod Message
use docker_applications.Common.{
  ℕ, zero, suc, ◌+◌, ◌-◌, ◌%◌, ◌^◌, Bool, true, false, not, Option, none, some, ◌>>=◌, List, length,
  if◌then◌else◌,
}
use docker_applications.Common.Memory.{read_at, write_at}
use docker_applications.Record.{get_size}
use docker_applications.Record.GpsFix
use docker_applications.Record.GpsFix.{GpsFixDataRecord}
use docker_applications.Record.Report
use docker_applications.Ring.{Ring, peek}

-- `sendBuffer` and `sendBufferSize`, a `uint8_t`
pub record SendBuffer : Type 0 where
  pub bytes : List ℕ
  pub size : ℕ

-- The last two lines of the loop: the record is copied to `&sendBuffer[sendBufferSize - 1]`.
unfoldable pub append_record : SendBuffer → GpsFixDataRecord → Option SendBuffer
append_record b record_ = do
  fix ← read_at record_.buffer 0 (get_size GpsFix.field_sizes)
  bytes ← write_at b.bytes (b.size - 1) fix
  some (record { bytes = bytes; size = (b.size + get_size GpsFix.field_sizes) % 2 ^ 8 })

-- The loop at `i`, with `left` rounds to go; `now` is the timestamp of the report.
unfoldable pub append_previous : Ring → ℕ → ℕ → ℕ → SendBuffer → Option SendBuffer
append_previous ring now zero i b = some b
append_previous ring now (suc left) i b = do
  peeked ← peek ring (1 + i)
  elim peeked.1 [
    | none ↦ some b
    | some record_ ↦ if not (GpsFix.is_valid record_) then some b else (do
      updated ← GpsFix.update_previous_fix_value record_ now
      b' ← append_record b updated
      append_previous ring now left (i + 1) b')
  ]

unfoldable pub update_gps_send_buffer : Ring → Report.Buffer → ℕ → SendBuffer → Option SendBuffer
update_gps_send_buffer ring pending coordinate_upload_count b = do
  report ← read_at pending 0 (get_size Report.field_sizes)
  bytes ← write_at b.bytes 0 report
  now ← Report.get_timestamp pending
  append_previous ring now (coordinate_upload_count - 1) 0
      (record { bytes = bytes; size = get_size Report.field_sizes })
