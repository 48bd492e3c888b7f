-- ===== src/Tracker/SendBuffer/Message.antt =====
-- The message that `updateGpsSendBuffer` builds.
use docker_applications.Common.{
  ℕ, ◌+◌, ◌-◌, ◌^◌, ◌≤◌, ◌<◌, ◌≡◌, refl, sym, ◌∙◌, true, some, List, length, arith, le→leb,
}
use docker_applications.Common.Bytes.{of_bytes}
use docker_applications.Common.Memory.{
  slice, splice, write_at, read_at_all, length-splice, slice-splice_below, slice-splice_above,
  slice-splice_same, take-splice_prefix,
}
use docker_applications.Record.{get_size}
use docker_applications.Record.Fields.{get_field_value-eq}
use docker_applications.Record.GpsFix
use docker_applications.Record.GpsFix.{GpsFixDataRecord, IsWhole, get_previous_fix-update}
use docker_applications.Record.Report
use docker_applications.Ring.{Ring, peek}
use docker_applications.Tracker.SendBuffer.{
  SendBuffer, append_record, append_previous, update_gps_send_buffer,
}

write_at-eq :
    (xs : List ℕ) (s : ℕ) (bs : List ℕ)
    → s + length bs ≤ length xs
    → write_at xs s bs ≡ some (splice s bs xs)
unfolding write_at
write_at-eq xs s bs h = rw (le→leb (s + length bs) (length xs) h)

-- The timestamp field of a report.
abbrev timestamp_of : Report.Buffer → ℕ
timestamp_of pending = of_bytes (slice 0 4 pending)

get_timestamp-eq :
    (pending : Report.Buffer)
    → length pending ≡ get_size Report.field_sizes
    → Report.get_timestamp pending ≡ some (timestamp_of pending)
unfolding Report.get_timestamp
get_timestamp-eq pending h =
    get_field_value-eq Report.field_sizes pending 0
      (record { small = omega arith; field_in = omega arith; whole = h })

module _ (ring : Ring) (pending : Report.Buffer) (b : SendBuffer)
    (whole : length pending ≡ get_size Report.field_sizes) (room : length b.bytes ≡ 128) where
  -- The buffer with the report in front.
  abbrev pub with_report : SendBuffer
  with_report = record { bytes = splice 0 pending b.bytes; size = 21 }

  report_first :
      (coordinate_upload_count : ℕ)
      → update_gps_send_buffer ring pending coordinate_upload_count b
        ≡ append_previous ring (timestamp_of pending) (coordinate_upload_count - 1) 0 with_report
  unfolding update_gps_send_buffer
  report_first coordinate_upload_count = rw (
    read_at_all pending 21 (sym whole),
    write_at-eq b.bytes 0 pending (omega arith),
    get_timestamp-eq pending whole,
  )

  pub report_alone : update_gps_send_buffer ring pending 1 b ≡ some with_report
  unfolding append_previous
  report_alone = report_first 1

  -- With one coordinate to upload, the message is the report.
  pub one_coordinate :
      (after : SendBuffer) × (update_gps_send_buffer ring pending 1 b ≡ some after)
      × (slice 0 after.size after.bytes ≡ pending)
  unfolding append_previous
  one_coordinate =
      (with_report, report_alone, slice-splice_same 0 21 pending b.bytes whole (omega arith))

  append_one :
      (fix updated : GpsFixDataRecord)
      → peek ring 1 ≡ some (true, some fix)
      → GpsFix.is_valid fix ≡ true
      → GpsFix.update_previous_fix_value fix (timestamp_of pending) ≡ some updated
      → IsWhole updated
      → append_previous ring (timestamp_of pending) 1 0 with_report
        ≡ some (record { bytes = splice 20 updated.buffer with_report.bytes; size = 31 })
  unfolding append_previous append_record
  append_one fix updated peeked valid updates updated_whole = rw (
    peeked,
    valid,
    updates,
    read_at_all updated.buffer 10 (sym updated_whole),
    write_at-eq with_report.bytes 20 updated.buffer
        (omega (arith, length-splice 0 pending b.bytes)),
  )

  -- With two coordinates to upload, a valid previous fix is put at the report's last byte: the
  -- message is the first 20 bytes of the report, the 10 bytes of the fix, and a last byte that the
  -- code does not write. The time to fix is lost.
  pub two_coordinates :
      (fix : GpsFixDataRecord)
      → peek ring 1 ≡ some (true, some fix)
      → GpsFix.is_valid fix ≡ true
      → IsWhole fix
      → fix.timestamp < 2 ^ 32
      → timestamp_of pending < 2 ^ 32
      → (updated : GpsFixDataRecord) × (after : SendBuffer) × (GpsFix.update_previous_fix_value fix
            (timestamp_of pending)
          ≡ some updated)
        × (update_gps_send_buffer ring pending 2 b ≡ some after)
        × (after.size ≡ 31)
        × (slice 0 20 after.bytes ≡ slice 0 20 pending)
        × (slice 20 10 after.bytes ≡ updated.buffer)
        × (slice 30 1 after.bytes ≡ slice 30 1 b.bytes)
  two_coordinates fix peeked valid fix_whole ht hn =
      let (updated, updates, _, _, _, _, updated_whole) =
        get_previous_fix-update fix (timestamp_of pending) fix_whole ht hn in
      (
        updated,
        record { bytes = splice 20 updated.buffer with_report.bytes; size = 31 },
        updates,
        report_first 2 ∙ append_one fix updated peeked valid updates updated_whole,
        refl,
        slice-splice_below 0 20 20 updated.buffer with_report.bytes (omega arith)
            ∙ take-splice_prefix 20 pending b.bytes (omega arith) (omega arith),
        slice-splice_same 20 10 updated.buffer with_report.bytes updated_whole
            (omega (arith, length-splice 0 pending b.bytes)),
        slice-splice_above 30 1 20 updated.buffer with_report.bytes (omega arith)
            ∙ slice-splice_above 30 1 0 pending b.bytes (omega arith),
      )
