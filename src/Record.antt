-- ===== src/Record.antt =====
-- nodes/SodaqOneDevice/DataRecord.cpp and DataRecord.h: the base class of the records that the
-- device stores and sends. A record is a byte buffer cut into fields of fixed sizes; a derived
-- class gives the sizes. The virtual methods `getSize` and `getFieldCount` are computed from them,
-- as the macros SUM and COUNT do. `none` is an access out of bounds.
pub mod Layout
pub mod Fields
pub mod Untyped
pub mod GpsFix
pub mod Report
pub mod OverTheAir
use docker_applications.Common.{
  ℕ, zero, suc, ◌+◌, ◌%◌, ◌^◌, Bool, ◌||◌, Option, none, some, ◌>>=◌, List, [], ◌∷◌, length,
  get_elem?, ltb, ◌==◌, not, if◌then◌else◌,
}
use docker_applications.Common.Bytes.{le_bytes, of_bytes}
use docker_applications.Common.Memory.{read_at, write_at}

-- The array of field sizes of a derived class.
abbrev pub FieldSizes : Type 0
FieldSizes = List ℕ

abbrev pub sum : List ℕ → ℕ
sum [] = 0
sum (x ∷ xs) = x + sum xs

abbrev pub get_size : FieldSizes → ℕ
get_size l = sum l

abbrev pub get_field_count : FieldSizes → ℕ
get_field_count l = length l

-- `getFieldSize` of the derived classes: the guard lets the index `getFieldCount()` through.
unfoldable pub get_field_size : FieldSizes → ℕ → Option ℕ
get_field_size l field_index =
    if ltb (get_field_count l) field_index then some 0 else get_elem? l field_index

-- The loop of `getFieldStart`, with `left` rounds to go; `result` is a `uint16_t`.
field_start_loop : FieldSizes → ℕ → ℕ → ℕ → Option ℕ
field_start_loop l zero i result = some result
field_start_loop l (suc left) i result =
    get_field_size l i >>= λ s. field_start_loop l left (i + 1) ((result + s) % 2 ^ 16)

unfoldable pub get_field_start : FieldSizes → ℕ → Option ℕ
unfolding field_start_loop
get_field_start l field_index = field_start_loop l field_index 0 0

-- `getFieldValue<T>` for an unsigned `T` of `w` bytes.
unfoldable pub get_field_value : FieldSizes → ℕ → List ℕ → ℕ → Option ℕ
unfolding get_field_size get_field_start read_at
get_field_value l w buffer field_index = if ltb (get_field_count l) field_index then some 0 else (do
  s ← get_field_size l field_index
  if ltb w s then some 0 else (do
    field_start ← get_field_start l field_index
    result ← read_at buffer field_start w
    some (of_bytes result)))

-- `setFieldValue<T>`: the bytes come from the `w` bytes of the value, as many as the field has.
unfoldable pub set_field_value : FieldSizes → ℕ → List ℕ → ℕ → ℕ → Option (List ℕ)
unfolding get_field_size get_field_start read_at write_at
set_field_value l w buffer field_index value =
    if ltb (get_field_count l) field_index then some buffer else (do
      s ← get_field_size l field_index
      if ltb s w then some buffer else (do
        field_start ← get_field_start l field_index
        bytes ← read_at (le_bytes w value) 0 s
        write_at buffer field_start bytes))

-- `getFieldValue(fieldIndex, buffer, size)`: the bytes of the field go to the caller's buffer; the
-- result is how many, with the buffer.
unfoldable pub get_field_bytes : FieldSizes → List ℕ → ℕ → List ℕ → ℕ → Option (ℕ × List ℕ)
unfolding get_field_size get_field_start read_at write_at
get_field_bytes l record_buffer field_index buffer size = do
  field_size ← get_field_size l field_index
  if ltb (get_field_count l) field_index || ltb size field_size then some (0, buffer) else (do
    field_start ← get_field_start l field_index
    bytes ← read_at record_buffer field_start field_size
    filled ← write_at buffer 0 bytes
    some (field_size, filled))

-- `setFieldValue(fieldIndex, buffer, size)`: as many bytes as the field has, not `size` of them.
unfoldable pub set_field_bytes : FieldSizes → List ℕ → ℕ → List ℕ → ℕ → Option (List ℕ)
unfolding get_field_size get_field_start read_at write_at
set_field_bytes l record_buffer field_index buffer size =
    if ltb (get_field_count l) field_index then some record_buffer else (do
      field_size ← get_field_size l field_index
      if ltb field_size size then some record_buffer else (do
        field_start ← get_field_start l field_index
        bytes ← read_at buffer 0 field_size
        write_at record_buffer field_start bytes))

-- `copyTo(buffer, size)`: `size` bytes are read from the record's buffer.
unfoldable pub copy_to : FieldSizes → List ℕ → List ℕ → ℕ → Option (List ℕ)
unfolding read_at write_at
copy_to l record_buffer buffer size =
    if ltb size (get_size l)
    then some buffer
    else (do bytes ← read_at record_buffer 0 size; write_at buffer 0 bytes)

-- `copyFrom(buffer, size)`
unfoldable pub copy_from : FieldSizes → List ℕ → List ℕ → ℕ → Option (List ℕ)
unfolding read_at write_at
copy_from l record_buffer buffer size =
    if not (size == get_size l)
    then some record_buffer
    else (do bytes ← read_at buffer 0 size; write_at record_buffer 0 bytes)
