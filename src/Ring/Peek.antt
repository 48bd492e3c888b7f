-- ===== src/Ring/Peek.antt =====
-- `gpsFixLiFoRingBuffer_peek`: what it reads, and where it leaves the array.
use native.Mathlib.Decide.{dec_lt}
use docker_applications.Common.{
  ℕ, ◌+◌, ◌-◌, ◌%◌, ◌≤◌, ◌<◌, min, ◌⊎◌, inl, inr, ◌≡◌, refl, true, false, none, some, List, [], ◌∷◌,
  length, get_elem?, arith, get_elem?-eq-get_or,
}
use docker_applications.Record.GpsFix.{GpsFixDataRecord}
use docker_applications.Ring.{Ring, size, init, is_empty, push, slot, peek}
use docker_applications.Ring.Refine.{
  IsValid, blank, contents, get_elem?-window, init-IsValid, push-IsValid, pushes, pushes_refines,
}

slot_within : (t k : ℕ) → t < size → k ≤ t → slot t k ≡ some (t - k)
unfolding slot
slot_within t k ht hk = ground arith

slot_outside : (t k : ℕ) → t < k → k < t + size → slot t k ≡ none
unfolding slot
slot_outside t k hk hs = ground arith

slot_full : (t : ℕ) → 0 < t → t < size → slot t size ≡ none
unfolding slot
slot_full t h ht = ground arith

-- The slot of the offset that is the count.
slot_at_count :
    (r : Ring) (offset : ℕ)
    → IsValid r
    → offset ≡ r.valid_item_count
    → 0 < offset
    → offset < size ⊎ (r.top ≡ 0)
    → slot r.top offset ≡ some 0
unfolding slot
slot_at_count r offset h at some_values (inl filling) =
    let bottom = h.filling (omega arith) in
    let top : r.top ≡ offset = omega (arith, h.bottom_at, bottom) in ground (arith, top)
slot_at_count r offset h at some_values (inr zero) = elim (dec_lt r.valid_item_count size) [
  | yes filling ↦ absurd (omega (arith, h.filling filling, h.bottom_at))
  | no full ↦ let all : offset ≡ size = omega (arith, h.count_in) in ground (arith, all, zero)
]

pub peek_lem :
    (r : Ring) (offset : ℕ)
    → IsValid r
    → (r.valid_item_count ≡ 0 → peek r offset ≡ some (false, none))
      × (r.valid_item_count < offset → peek r offset ≡ some (false, none))
      × (offset < r.valid_item_count
          → offset ≤ r.top
          → peek r offset ≡ some (true, get_elem? (contents r) offset))
      × (offset < r.valid_item_count → r.top < offset → peek r offset ≡ none)
      × (offset ≡ r.valid_item_count
          → 0 < offset
          → offset < size ⊎ (r.top ≡ 0)
          → peek r offset ≡ some (true, get_elem? r.data_ 0))
      × (offset ≡ r.valid_item_count → offset ≡ size → 0 < r.top → peek r offset ≡ none)
unfolding peek is_empty
peek_lem r offset h = (
  λ empty. ground arith,
  λ beyond. ground arith,
  λ below within. ground (
    arith,
    slot_within r.top offset h.top_in within,
    get_elem?-eq-get_or r.data_ (r.top - offset) blank,
    get_elem?-window r.data_ r.top r.valid_item_count offset below within h.top_in,
  ),
  λ below outside. ground (arith, slot_outside r.top offset outside),
  λ at some_values place.
      let zero_slot : slot r.top offset ≡ some 0 = slot_at_count r offset h at some_values place in
      ground (arith, zero_slot, get_elem?-eq-get_or r.data_ 0 blank, h.slots),
  λ at full above. ground (arith, slot_full r.top above h.top_in),
)

push_moves :
    (r : Ring) (v : GpsFixDataRecord)
    → IsValid r
    → ((push r v).top ≡ (r.top + 1) % size)
      × ((push r v).valid_item_count ≡ min size (r.valid_item_count + 1))
unfolding push
push_moves r v h = ground arith

pushes_move :
    (vs : List GpsFixDataRecord) (r : Ring)
    → IsValid r
    → ((pushes r vs).top ≡ (r.top + length vs) % size)
      × ((pushes r vs).valid_item_count ≡ min size (r.valid_item_count + length vs))
unfolding pushes
pushes_move [] r h = omega arith
pushes_move (v ∷ vs) r h =
    omega (arith, push_moves r v h, pushes_move vs (push r v) (push-IsValid r v h))

init_zero : (r : Ring) → ((init r).top ≡ 0) × ((init r).valid_item_count ≡ 0)
unfolding init
init_zero r = (refl, refl)

-- After `init` and a positive multiple of four pushes, the previous fix cannot be read: `peek(1)`
-- accesses `_data[-1]`.
peek_previous_fault :
    (r : Ring) (vs : List GpsFixDataRecord)
    → length r.data_ ≡ size
    → 0 < length vs
    → length vs % size ≡ 0
    → peek (pushes (init r) vs) 1 ≡ none
peek_previous_fault r vs h ne multiple =
    let valid = (init-IsValid r h).0 in
    let m = pushes_move vs (init r) valid in
    (peek_lem (pushes (init r) vs) 1 (pushes_refines vs (init r) valid).0).3
      (omega (arith, m, init_zero r)) (omega (arith, m, init_zero r))
