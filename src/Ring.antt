-- ===== src/Ring.antt =====
-- nodes/SodaqOneDevice/GpsFixLiFoRingBuffer.cpp and GpsFixLiFoRingBuffer.h: the last four GPS
-- fixes. The static variables of the file are a record; `Option.none` is an access of `_data` out
-- of its bounds.
pub mod Lifo
pub mod Refine
pub mod Peek
use docker_applications.Common.{
  ℕ, zero, suc, ◌+◌, ◌-◌, ◌%◌, ◌^◌, Bool, true, false, ◌||◌, Option, none, some, ◌>>=◌, List, [],
  ◌∷◌, map, length, get_elem?, set, ltb, leb, ◌==◌, if◌then◌else◌,
}
use docker_applications.Record.GpsFix
use docker_applications.Record.GpsFix.{GpsFixDataRecord}

-- GPS_FIX_LIFO_RING_BUFFER_SIZE
abbrev pub size : ℕ
size = 4

-- `_bottom`, `_top` and `_validItemCount` are `uint16_t`.
pub record Ring : Type 0 where
  pub data_ : List GpsFixDataRecord
  pub bottom : ℕ
  pub top : ℕ
  pub valid_item_count : ℕ

unfoldable pub init : Ring → Ring
init r = record { data_ = map GpsFix.init r.data_; bottom = 0; top = 0; valid_item_count = 0 }

unfoldable pub is_empty : Ring → Bool
is_empty r = r.valid_item_count == 0

-- `_top + 1` is computed in `int`; `_validItemCount++` wraps at 16 bits.
unfoldable pub push : Ring → GpsFixDataRecord → Ring
push r value =
    let top = (r.top + 1) % size in
    let count = (r.valid_item_count + 1) % 2 ^ 16 in
    let stored = set r.data_ top value in
    if ltb size count
    then record {
      data_ = stored;
      bottom = (r.bottom + 1) % size;
      top = top;
      valid_item_count = size;
    }
    else record { data_ = stored; bottom = r.bottom; top = top; valid_item_count = count }

-- `_data[(_top - offset) % 4]` in `int`: a negative difference has a negative remainder, which is
-- an index below the array unless it is zero.
unfoldable pub slot : ℕ → ℕ → Option ℕ
slot top offset =
    if leb offset top
    then some ((top - offset) % size)
    else if (offset - top) % size == 0
    then some 0
    else none

-- The result of `peek`: whether it succeeded, and what it wrote through `returnValue`.
abbrev pub Peeked : Type 0
Peeked = Bool × Option GpsFixDataRecord

unfoldable pub peek : Ring → ℕ → Option Peeked
unfolding is_empty slot
peek r offset =
    if is_empty r || ltb r.valid_item_count offset
    then some (false, none)
    else (do i ← slot r.top offset; value ← get_elem? r.data_ i; some (true, some value))
