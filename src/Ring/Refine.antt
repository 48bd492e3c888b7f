-- ===== src/Ring/Refine.antt =====
-- The ring buffer of GpsFixLiFoRingBuffer.cpp against the list of the last four values.
use mathlib.Core.List.{foldl}
use docker_applications.Common.{
  ℕ, zero, suc, ◌+◌, ◌-◌, ◌%◌, ◌^◌, ◌≤◌, ◌<◌, min, ◌≡◌, refl, ap, ap₂, ◌∙◌, inl, inr, some, List,
  [], ◌∷◌, map, length, get_elem?, get_or, set, take, ltb, arith, length-set, Bool-cases,
  get_or-set_self, get_or-set_ne,
}
use docker_applications.Record.GpsFix
use docker_applications.Record.GpsFix.{GpsFixDataRecord}
use docker_applications.Ring.{Ring, size, init, push}
use docker_applications.Ring.Lifo

pub record IsValid (r : Ring) : Type 0 where
  pub slots : length r.data_ ≡ size
  pub top_in : r.top < size
  pub count_in : r.valid_item_count ≤ size
  pub bottom_at : (r.bottom + r.valid_item_count) % size ≡ r.top
  pub bottom_in : r.bottom < size
  pub filling : r.valid_item_count < size → r.bottom ≡ 0

abbrev pub blank : GpsFixDataRecord
blank = record { buffer = []; timestamp = 0 }

module _ (xs : List GpsFixDataRecord) where
  -- the `n` values from slot `t` down, going round
  abbrev pub window : ℕ → ℕ → List GpsFixDataRecord
  window t zero = []
  window t (suc n) = get_or xs t blank ∷ window ((t + 3) % size) n

  take-window : (t n k : ℕ) → take k (window t n) ≡ window t (min n k)
  take-window t n zero = ap (window t) (let e : 0 ≡ min n 0 = omega arith in e)
  take-window t zero (suc k) = ap (window t) (let e : 0 ≡ min 0 (suc k) = omega arith in e)
  take-window t (suc n) (suc k) =
      ap (λ w. get_or xs t blank ∷ w) (take-window ((t + 3) % size) n k)
      ∙ ap (window t) (let e : suc (min n k) ≡ min (suc n) (suc k) = omega arith in e)

  pub get_elem?-window :
      (t n k : ℕ)
      → k < n
      → k ≤ t
      → t < size
      → get_elem? (window t n) k ≡ some (get_or xs (t - k) blank)
  get_elem?-window t zero k h _ _ = elim h [ ]
  get_elem?-window t (suc n) zero h _ _ = ap (λ i. some (get_or xs i blank)) (omega arith)
  get_elem?-window t (suc n) (suc k) h hk ht =
      get_elem?-window ((t + 3) % size) n k (omega arith) (omega arith) (omega arith)
      ∙ ap (λ i. some (get_or xs i blank)) (omega arith)

-- Writing a slot that a window does not reach leaves the window.
window-set :
    (xs : List GpsFixDataRecord) (i t n : ℕ) (v : GpsFixDataRecord)
    → i < size
    → t < size
    → n ≤ (t + size - i) % size
    → window (set xs i v) t n ≡ window xs t n
window-set xs i t zero v hi ht hn = refl
window-set xs i t (suc n) v hi ht hn =
    ap₂ ◌∷◌ (get_or-set_ne xs i t v blank (omega arith))
      (window-set xs i ((t + 3) % size) n v hi (omega arith) (omega arith))

abbrev pub contents : Ring → List GpsFixDataRecord
contents r = window r.data_ r.top r.valid_item_count

length-map {ℓ κ} :
    {A : Type ℓ} {B : Type κ} (f : A → B) (xs : List A) → length (map f xs) ≡ length xs
length-map f [] = refl
length-map f (x ∷ xs) = ap suc (length-map f xs)

-- `init` gives a valid ring that holds nothing.
pub init-IsValid : (r : Ring) → length r.data_ ≡ size → IsValid (init r) × (contents (init r) ≡ [])
unfolding init
init-IsValid r h = (
  record {
    slots = length-map GpsFix.init r.data_ ∙ h;
    top_in = omega arith;
    count_in = omega arith;
    bottom_at = refl;
    bottom_in = omega arith;
    filling = λ _. refl;
  },
  refl,
)

-- `push` keeps the ring valid.
pub push-IsValid : (r : Ring) (v : GpsFixDataRecord) → IsValid r → IsValid (push r v)
unfolding push
push-IsValid r v h = ground (arith, length-set r.data_ ((r.top + 1) % size) v)

window-push :
    (xs : List GpsFixDataRecord) (t c n : ℕ) (v : GpsFixDataRecord)
    → length xs ≡ size
    → t < size
    → n ≡ suc (min c 3)
    → window (set xs ((t + 1) % size) v) ((t + 1) % size) n ≡ v ∷ window xs t (min c 3)
window-push xs t c n v hx ht hn = rw hn (
    ap₂ ◌∷◌ (get_or-set_self xs ((t + 1) % size) v blank (omega arith)) (
      ap (λ u. window (set xs ((t + 1) % size) v) u (min c 3))
        (let e : ((t + 1) % size + 3) % size ≡ t = omega arith in e)
      ∙ window-set xs ((t + 1) % size) t (min c 3) v (omega arith) ht (omega arith)))

-- `push` puts the value in front and drops the fifth.
pub push_refines :
    (r : Ring) (v : GpsFixDataRecord) → IsValid r → contents (push r v) ≡ Lifo.push (contents r) v
unfolding push Lifo.push
push_refines r v h =
    let c : ℕ = r.valid_item_count in
    let e : take 3 (contents r) ≡ window r.data_ r.top (min c 3) = take-window r.data_ r.top c 3 in
    rw e (elim (Bool-cases (ltb size ((c + 1) % 2 ^ 16))) [
      | inl full ↦ rw full (window-push r.data_ r.top c size v h.slots h.top_in (ground arith))
      | inr room ↦
          rw room (window-push r.data_ r.top c ((c + 1) % 2 ^ 16) v h.slots h.top_in (ground arith))
    ])

unfoldable pub pushes : Ring → List GpsFixDataRecord → Ring
pushes r vs = foldl push r vs

-- Any number of pushes leaves a valid ring that holds the last four values, newest first.
pub pushes_refines :
    (vs : List GpsFixDataRecord) (r : Ring)
    → IsValid r
    → IsValid (pushes r vs) × (contents (pushes r vs) ≡ foldl Lifo.push (contents r) vs)
unfolding pushes
pushes_refines [] r h = (h, refl)
pushes_refines (v ∷ vs) r h =
    let (valid, holds) = pushes_refines vs (push r v) (push-IsValid r v h) in
    (valid, holds ∙ ap (λ q. foldl Lifo.push q vs) (push_refines r v h))
