-- ===== src/Record/Layout.antt =====
-- Where the fields of a `DataRecord` lie: `getFieldSize` and `getFieldStart` in closed form.
use native.Mathlib.Numerals.{add-one}
use docker_applications.Common.{
  ap, ℕ, zero, suc, ◌+◌, ◌%◌, ◌^◌, ◌≤◌, ◌<◌, ◌≡◌, ◌∙◌, some, [], ◌∷◌, get_or, take, arith,
  get_elem?-eq-get_or,
}
use docker_applications.Record.{
  FieldSizes, sum, get_size, get_field_count, get_field_size, field_start_loop, get_field_start,
}

-- The size and the first byte of a field, by the table alone.
abbrev pub size_of : FieldSizes → ℕ → ℕ
size_of l i = get_or l i 0

abbrev pub start_of : FieldSizes → ℕ → ℕ
start_of l i = sum (take i l)

pub get_field_size-eq :
    (l : FieldSizes) (i : ℕ) → i < get_field_count l → get_field_size l i ≡ some (size_of l i)
unfolding get_field_size
get_field_size-eq l i h = ground (arith, get_elem?-eq-get_or l i 0)

-- Fields lie one behind the other, inside the buffer.
pub start_of-suc : (l : FieldSizes) (i : ℕ) → start_of l (suc i) ≡ start_of l i + size_of l i
start_of-suc [] zero = omega arith
start_of-suc [] (suc i) = omega arith
start_of-suc (s ∷ l) zero = omega arith
start_of-suc (s ∷ l) (suc i) = omega (arith, start_of-suc l i)

pub start_of_mono : (l : FieldSizes) (i j : ℕ) → i ≤ j → start_of l i ≤ start_of l j
start_of_mono [] zero j h = omega arith
start_of_mono [] (suc i) j h = omega arith
start_of_mono (s ∷ l) zero j h = omega arith
start_of_mono (s ∷ l) (suc i) zero h = elim h [ ]
start_of_mono (s ∷ l) (suc i) (suc j) h = omega (arith, start_of_mono l i j (omega arith))

pub field_end_le : (l : FieldSizes) (i : ℕ) → start_of l i + size_of l i ≤ get_size l
field_end_le [] zero = omega arith
field_end_le [] (suc i) = omega arith
field_end_le (s ∷ l) zero = omega arith
field_end_le (s ∷ l) (suc i) = omega (arith, field_end_le l i)

start_of_step :
    (l : FieldSizes) (i : ℕ)
    → get_size l < 2 ^ 16
    → (start_of l i + size_of l i) % 2 ^ 16 ≡ start_of l (i + 1)
start_of_step l i hs = rw add-one (omega (arith, start_of-suc l i, field_end_le l i))

field_start_loop-eq :
    (l : FieldSizes) (left i : ℕ)
    → get_size l < 2 ^ 16
    → i + left ≤ get_field_count l
    → field_start_loop l left i (start_of l i) ≡ some (start_of l (i + left))
unfolding field_start_loop
field_start_loop-eq l zero i hs h = ap (λ k. some (start_of l k)) (omega arith)
field_start_loop-eq l (suc left) i hs h =
    rw (get_field_size-eq l i (omega arith), start_of_step l i hs)
      (field_start_loop-eq l left (i + 1) hs (omega arith)
        ∙ ap (λ k. some (start_of l k)) (omega arith))

-- The offset of a field is the sum of the sizes before it: no `uint16_t` wraps.
pub get_field_start-eq :
    (l : FieldSizes) (i : ℕ)
    → get_size l < 2 ^ 16
    → i ≤ get_field_count l
    → get_field_start l i ≡ some (start_of l i)
unfolding get_field_start
get_field_start-eq l i hs h =
    field_start_loop-eq l i 0 hs (omega arith) ∙ ap (λ k. some (start_of l k)) (omega arith)
