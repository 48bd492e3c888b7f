-- ===== src/Record/Untyped.antt =====
-- `DataRecord::getFieldValue(fieldIndex, buffer, size)` and
-- `DataRecord::setFieldValue(fieldIndex, buffer, size)` of nodes/SodaqOneDevice/DataRecord.cpp:
-- fields as bytes, without a type.
use docker_applications.Common.{
  ℕ, ◌+◌, ◌≤◌, ◌<◌, ◌≡◌, refl, sym, ◌∙◌, none, some, List, ◌++◌, length, drop, arith,
}
use docker_applications.Common.Memory.{
  slice, splice, read_at, length-splice, length-slice, slice-splice_same, splice-prefix,
  read_at_all,
}
use docker_applications.Common.Bytes.{le_bytes, length-le_bytes}
use docker_applications.Record.{FieldSizes, set_field_value, get_field_bytes, set_field_bytes}
use docker_applications.Record.Fields.{IsField, set_field_value-eq}
use docker_applications.Record.Layout.{
  size_of, start_of, get_field_size-eq, field_end_le, get_field_start-eq,
}

module _ (l : FieldSizes) (record_buffer : List ℕ) (i : ℕ) (f : IsField l record_buffer i) where
  set_field_bytes-eq :
      (bytes : List ℕ)
      → length bytes ≡ size_of l i
      → set_field_bytes l record_buffer i bytes (size_of l i)
        ≡ some (splice (start_of l i) bytes record_buffer)
  unfolding set_field_bytes
  set_field_bytes-eq bytes h = ground (
    arith,
    get_field_size-eq l i f.field_in,
    get_field_start-eq l i f.small,
    field_end_le l i,
    read_at_all bytes (size_of l i) (sym h),
    f.whole,
  )

  get_field_bytes-eq :
      (buffer : List ℕ) (size : ℕ)
      → size_of l i ≤ size
      → size ≤ length buffer
      → get_field_bytes l record_buffer i buffer size
        ≡ some (size_of l i, splice 0 (slice (start_of l i) (size_of l i) record_buffer) buffer)
  unfolding get_field_bytes
  get_field_bytes-eq buffer size hs hb = ground (
    arith,
    get_field_size-eq l i f.field_in,
    get_field_start-eq l i f.small,
    field_end_le l i,
    length-slice (start_of l i) (size_of l i) record_buffer
        (omega (arith, field_end_le l i, f.whole)),
    f.whole,
  )

-- The bytes of a value of the field's type: the typed setter is the untyped one.
pub set_field_bytes-le_bytes :
    (l : FieldSizes) (record_buffer : List ℕ) (i v : ℕ)
    → IsField l record_buffer i
    → set_field_bytes l record_buffer i (le_bytes (size_of l i) v) (size_of l i)
      ≡ set_field_value l (size_of l i) record_buffer i v
set_field_bytes-le_bytes l record_buffer i v f =
    set_field_bytes-eq l record_buffer i f (le_bytes (size_of l i) v)
      (length-le_bytes (size_of l i) v)
    ∙ sym (set_field_value-eq l record_buffer i v f)

-- Bytes set into a field, as many as it has, are those read from it: into a buffer that has room,
-- whose further bytes stay, with their number as the result.
pub get_field_bytes-set_field_bytes :
    (l : FieldSizes) (record_buffer bytes buffer : List ℕ) (i size : ℕ)
    → IsField l record_buffer i
    → length bytes ≡ size_of l i
    → size_of l i ≤ size
    → size ≤ length buffer
    → (after : List ℕ) × (set_field_bytes l record_buffer i bytes (size_of l i) ≡ some after)
      × (get_field_bytes l after i buffer size
          ≡ some (size_of l i, bytes ++ drop (size_of l i) buffer))
get_field_bytes-set_field_bytes l record_buffer bytes buffer i size f hl hs hb =
    let fits : start_of l i + size_of l i ≤ length record_buffer =
      omega (arith, field_end_le l i, f.whole) in
    let fw : IsField l (splice (start_of l i) bytes record_buffer) i = record {
      small = f.small;
      field_in = f.field_in;
      whole = length-splice (start_of l i) bytes record_buffer ∙ f.whole;
    } in
    (
      splice (start_of l i) bytes record_buffer,
      set_field_bytes-eq l record_buffer i f bytes hl,
      rw
          (
            get_field_bytes-eq l (splice (start_of l i) bytes record_buffer) i fw buffer size hs hb,
            slice-splice_same (start_of l i) (size_of l i) bytes record_buffer hl fits,
            splice-prefix bytes buffer (omega arith),
            hl,
          )
          refl,
    )

-- A buffer shorter than the field passes the guard of the untyped setter, which then reads behind
-- its end.
pub set_field_bytes_short :
    (l : FieldSizes) (record_buffer bytes : List ℕ) (i : ℕ)
    → IsField l record_buffer i
    → length bytes < size_of l i
    → set_field_bytes l record_buffer i bytes (length bytes) ≡ none
unfolding set_field_bytes read_at
set_field_bytes_short l record_buffer bytes i f h =
    ground (arith, get_field_size-eq l i f.field_in, get_field_start-eq l i f.small)
