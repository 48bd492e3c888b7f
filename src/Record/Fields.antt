-- ===== src/Record/Fields.antt =====
-- `getFieldValue<T>` and `setFieldValue<T>` of `DataRecord`: reading back what was written.
use native.Mathlib.Decide.{dec_lt}
use docker_applications.Common.{
  subst, ◌==◌, ◌∙◌, Bool-cases, ==→eq, ℕ, suc, ◌^◌, ◌<◌, ◌≡◌, sym, ap, ◌≢◌, inl, inr, some, List,
  length, if◌then◌else◌, arith,
}
use docker_applications.Common.Bytes.{le_bytes, of_bytes, length-le_bytes, of_bytes-le_bytes}
use docker_applications.Common.Memory.{
  slice, splice, read_at, length-splice, slice-splice_self, slice-splice_below, slice-splice_above,
  read_at_all, write_at_all,
}
use docker_applications.Record.{
  FieldSizes, get_size, get_field_count, get_field_value, set_field_value, copy_to, copy_from,
}
use docker_applications.Record.Layout.{
  size_of, start_of, get_field_size-eq, start_of-suc, start_of_mono, field_end_le,
  get_field_start-eq,
}

-- A field and a buffer of a class whose size fits a `uint16_t`.
pub record IsField (l : FieldSizes) (buffer : List ℕ) (i : ℕ) : Type 0 where
  pub small : get_size l < 2 ^ 16
  pub field_in : i < get_field_count l
  pub whole : length buffer ≡ get_size l

-- The field's own type reads its bytes.
pub get_field_value-eq :
    (l : FieldSizes) (buffer : List ℕ) (i : ℕ)
    → IsField l buffer i
    → get_field_value l (size_of l i) buffer i
      ≡ some (of_bytes (slice (start_of l i) (size_of l i) buffer))
unfolding get_field_value
get_field_value-eq l buffer i f =
    ground
      (arith, get_field_size-eq l i f.field_in, get_field_start-eq l i f.small, field_end_le l i)

read_at-le_bytes : (w v : ℕ) → read_at (le_bytes w v) 0 w ≡ some (le_bytes w v)
read_at-le_bytes w v = read_at_all (le_bytes w v) w (sym (length-le_bytes w v))

-- The field's own type writes its bytes, and those only.
pub set_field_value-eq :
    (l : FieldSizes) (buffer : List ℕ) (i v : ℕ)
    → IsField l buffer i
    → set_field_value l (size_of l i) buffer i v
      ≡ some (splice (start_of l i) (le_bytes (size_of l i) v) buffer)
unfolding set_field_value
set_field_value-eq l buffer i v f = ground (
  arith,
  get_field_size-eq l i f.field_in,
  get_field_start-eq l i f.small,
  field_end_le l i,
  read_at-le_bytes (size_of l i) v,
  length-le_bytes (size_of l i) v,
)

IsField-splice :
    {l : FieldSizes} {buffer : List ℕ} {i : ℕ} (j v : ℕ)
    → IsField l buffer i
    → IsField l (splice (start_of l j) (le_bytes (size_of l j) v) buffer) i
IsField-splice {l} {buffer} j v f = record {
  small = f.small;
  field_in = f.field_in;
  whole = length-splice (start_of l j) (le_bytes (size_of l j) v) buffer ∙ f.whole;
}

module _ (l : FieldSizes) (buffer : List ℕ) (i v : ℕ) where
  -- The buffer after the setter of field `i`.
  abbrev pub written : List ℕ
  written = splice (start_of l i) (le_bytes (size_of l i) v) buffer

module _ (l : FieldSizes) (buffer : List ℕ) (i v : ℕ) (fi : IsField l buffer i) where
  read_same : slice (start_of l i) (size_of l i) (written l buffer i v) ≡ le_bytes (size_of l i) v
  read_same =
      subst (λ n. slice (start_of l i) n (written l buffer i v) ≡ le_bytes (size_of l i) v)
        (length-le_bytes (size_of l i) v)
        (slice-splice_self (start_of l i) (le_bytes (size_of l i) v) buffer
          (omega (arith, length-le_bytes (size_of l i) v, field_end_le l i, fi.whole)))

  read_other :
      (j : ℕ)
      → j ≢ i
      → slice (start_of l j) (size_of l j) (written l buffer i v)
        ≡ slice (start_of l j) (size_of l j) buffer
  read_other j ne = elim (dec_lt j i) [
    | yes p ↦
        slice-splice_below (start_of l j) (size_of l j) (start_of l i) (le_bytes (size_of l i) v)
          buffer (omega (arith, start_of-suc l j, start_of_mono l (suc j) i p))
    | no p ↦
        slice-splice_above (start_of l j) (size_of l j) (start_of l i) (le_bytes (size_of l i) v)
          buffer
          (omega (
            arith,
            start_of-suc l i,
            length-le_bytes (size_of l i) v,
            start_of_mono l (suc i) j (omega arith),
          ))
  ]

  -- What each field reads after the setter of field `i`.
  pub get_field_value-written :
      (j : ℕ)
      → IsField l buffer j
      → v < 256 ^ size_of l i
      → get_field_value l (size_of l j) (written l buffer i v) j
        ≡ (if j == i then some v else get_field_value l (size_of l j) buffer j)
  get_field_value-written j fj h =
      let fw : IsField l (written l buffer i v) j = IsField-splice i v fj in
      elim (Bool-cases (j == i)) [
        | inl e ↦
            rw (e, get_field_value-eq l (written l buffer i v) j fw, ==→eq j i e, read_same)
              (ap some (of_bytes-le_bytes (size_of l i) v h))
        | inr e ↦
            rw
              (
                e,
                get_field_value-eq l (written l buffer i v) j fw,
                get_field_value-eq l buffer j fj,
              )
              (ap (λ bs. some (of_bytes bs)) (read_other j (λ q. ground arith)))
      ]

-- A setter neither faults nor changes the size of the buffer, and for each field of the record,
-- with a value that fits it: the setter's field reads that value, any other reads what it read.
pub get_field_value-set_field_value :
    (l : FieldSizes) (buffer : List ℕ) (i j v : ℕ)
    → IsField l buffer i
    → IsField l buffer j
    → v < 256 ^ size_of l i
    → (after : List ℕ) × (set_field_value l (size_of l i) buffer i v ≡ some after)
      × (length after ≡ length buffer)
      × (get_field_value l (size_of l j) after j
          ≡ (if j == i then some v else get_field_value l (size_of l j) buffer j))
get_field_value-set_field_value l buffer i j v fi fj h = (
  splice (start_of l i) (le_bytes (size_of l i) v) buffer,
  set_field_value-eq l buffer i v fi,
  length-splice (start_of l i) (le_bytes (size_of l i) v) buffer,
  get_field_value-written l buffer i v fi j fj h,
)

-- `copyTo` into a buffer of the record's size and `copyFrom` back restore the record.
pub copy_from-copy_to :
    (l : FieldSizes) (record_buffer buffer other : List ℕ)
    → length record_buffer ≡ get_size l
    → length buffer ≡ get_size l
    → length other ≡ get_size l
    → (sent : List ℕ) × (copy_to l record_buffer buffer (get_size l) ≡ some sent)
      × (copy_from l other sent (get_size l) ≡ some record_buffer)
unfolding copy_to copy_from
copy_from-copy_to l record_buffer buffer other hr hb ho =
    let reads : read_at record_buffer 0 (get_size l) ≡ some record_buffer =
      read_at_all record_buffer (get_size l) (sym hr) in
    (
      record_buffer,
      ground (arith, reads, write_at_all record_buffer buffer (hr ∙ sym hb)),
      ground (arith, reads, write_at_all record_buffer other (hr ∙ sym ho)),
    )
