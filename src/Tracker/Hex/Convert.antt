-- ===== src/Tracker/Hex/Convert.antt =====
-- `convertAndCheckHexArray` on the text that `setDevAddrOrEUItoHWEUI` writes.
use native.Mathlib.Numerals.{add-one}
use native.Mathlib.Nat.{zero-add}
use docker_applications.Common.{
  get_elem?, get_elem?-eq-get_or, get_or-set_self, ap₂, length-set, ℕ, zero, suc, ◌+◌, ◌<◌, ◌≤◌,
  ◌≡◌, refl, sym, ap, ◌∙◌, Bool, true, false, ◌||◌, none, some, ◌>>=◌, List, [], ◌∷◌, ◌++◌, length,
  set, ltb, arith, ne→==, lt→ltb, le→ltb,
}
use docker_applications.Common.Memory.{
  slice, splice, length-splice, splice-nil, slice-splice_self, slice-splice_below, set-eq-splice,
}
use docker_applications.Tracker.Hex.{
  nibble_to_hex_char, high_nibble, low_nibble, hex_pair_to_byte, isxdigit, store, finish,
  convert_loop, convert_and_check_hex_array, hex_char_to_nibble,
}

-- The text of bytes: two upper-case digits each.
abbrev pub hex_of : List ℕ → List ℕ
hex_of [] = []
hex_of (b ∷ bs) = nibble_to_hex_char (high_nibble b) ∷ nibble_to_hex_char (low_nibble b) ∷ hex_of bs

abbrev pub AllBytes : List ℕ → Type 0
AllBytes [] = Unit
AllBytes (b ∷ bs) = (b < 256) × AllBytes bs

abbrev pub any_non_zero : List ℕ → Bool
any_non_zero [] = false
any_non_zero (b ∷ bs) = ltb 0 b || any_non_zero bs

hex_char-nibble :
    (n : ℕ)
    → n < 16
    → (hex_char_to_nibble (nibble_to_hex_char n) ≡ n)
      × (isxdigit (nibble_to_hex_char n) ≡ true)
      × (0 < nibble_to_hex_char n)
unfolding hex_char_to_nibble nibble_to_hex_char isxdigit
hex_char-nibble n h = (ground arith, ground arith, ground arith)

-- The two digits of a byte are read as that byte.
pub hex_pair_to_byte-nibbles :
    (b : ℕ)
    → b < 256
    → hex_pair_to_byte (nibble_to_hex_char (high_nibble b)) (nibble_to_hex_char (low_nibble b)) ≡ b
unfolding hex_pair_to_byte
hex_pair_to_byte-nibbles b h = omega (
  arith,
  hex_char-nibble (high_nibble b) (omega arith),
  hex_char-nibble (low_nibble b) (omega arith),
)

-- One round of the loop at the digits of a byte.
convert_loop-byte :
    (left : ℕ) (result : List ℕ) (b : ℕ) (hex : List ℕ) (i : ℕ) (found : Bool)
    → b < 256
    → convert_loop (suc left) result (hex_of (b ∷ []) ++ hex) i found
      ≡ (store result i b >>= λ r. convert_loop left r hex (i + 1) (ltb 0 b || found))
unfolding convert_loop
convert_loop-byte left result b hex i found h =
    let hi = hex_char-nibble (high_nibble b) (omega arith) in
    let lo = hex_char-nibble (low_nibble b) (omega arith) in
    rw (
      ne→== (nibble_to_hex_char (high_nibble b)) 0 (omega arith),
      ne→== (nibble_to_hex_char (low_nibble b)) 0 (omega arith),
      hi.1,
      lo.1,
      hex_pair_to_byte-nibbles b h,
    )

pub store_within :
    (result : List ℕ) (i v : ℕ) → i < length result → store result i v ≡ some (set result i v)
unfolding store
store_within result i v h = rw (lt→ltb i (length result) h)

pub store_beyond : (result : List ℕ) (i v : ℕ) → length result ≤ i → store result i v ≡ none
unfolding store
store_beyond result i v h = rw (le→ltb i (length result) h)

-- Storing one item and then the others behind it is writing them all.
pub splice-set :
    (i : ℕ) (b : ℕ) (bs result : List ℕ)
    → i < length result
    → splice (suc i) bs (set result i b) ≡ splice i (b ∷ bs) result
splice-set i b bs [] h = elim h [ ]
splice-set zero b bs (x ∷ result) h = refl
splice-set (suc i) b bs (x ∷ result) h = ap (λ t. x ∷ t) (splice-set i b bs result (omega arith))

or_regroup : (a b c : Bool) → (b || (a || c)) ≡ ((a || b) || c)
or_regroup true true c = refl
or_regroup true false c = refl
or_regroup false true c = refl
or_regroup false false c = refl

or_false : (a : Bool) → (a || false) ≡ a
or_false true = refl
or_false false = refl

finish_within :
    (result : List ℕ) (n : ℕ) (found : Bool)
    → n < length result
    → finish result n found ≡ some (found, set result n 0)
unfolding finish
finish_within result n found h = rw (store_within result n 0 h)

-- The loop on the text of as many bytes as are to be read.
convert_loop-hex_of :
    (bs result rest : List ℕ) (i : ℕ) (found : Bool)
    → AllBytes bs
    → i + length bs ≤ length result
    → convert_loop (length bs) result (hex_of bs ++ rest) i found
      ≡ finish (splice i bs result) (i + length bs) (any_non_zero bs || found)
convert_loop-hex_of [] result rest i found ok_bytes h =
    unfold convert_loop in ap₂ (λ r n. finish r n found) (sym (splice-nil i result)) (omega arith)
convert_loop-hex_of (b ∷ bs) result rest i found ok_bytes h =
    rw
      (
        convert_loop-byte (length bs) result b (hex_of bs ++ rest) i found ok_bytes.0,
        store_within result i b (omega arith),
        convert_loop-hex_of bs (set result i b) rest (i + 1) (ltb 0 b || found) ok_bytes.1
            (omega (arith, length-set result i b)),
        add-one i,
        splice-set i b bs result (omega arith),
        or_regroup (ltb 0 b) (any_non_zero bs) found,
      )
      (ap (λ n. finish (splice i (b ∷ bs) result) n ((ltb 0 b || any_non_zero bs) || found))
        (omega arith))

-- Into an array with room for the bytes and a terminator, the text of bytes is converted to those
-- bytes, and the function says whether one of them is not zero.
pub convert-hex_of :
    (bs result rest : List ℕ)
    → AllBytes bs
    → length bs < length result
    → (after : List ℕ) × (convert_and_check_hex_array result (hex_of bs ++ rest) (length bs)
        ≡ some (any_non_zero bs, after))
      × (slice 0 (length bs) after ≡ bs)
      × (get_elem? after (length bs) ≡ some 0)
      × (length after ≡ length result)
unfolding convert_and_check_hex_array
convert-hex_of bs result rest ok_bytes h =
    let n : ℕ = length bs in
    let body : List ℕ = splice 0 bs result in
    let room : n < length body = omega (arith, length-splice 0 bs result) in
    (
      set body n 0,
      rw
          (
            convert_loop-hex_of bs result rest 0 false ok_bytes (omega arith),
            or_false (any_non_zero bs),
            zero-add,
          )
          (finish_within body n (any_non_zero bs) room),
      rw set-eq-splice (
          slice-splice_below 0 n n (0 ∷ []) body (omega arith)
          ∙ slice-splice_self 0 bs result (omega arith)),
      get_elem?-eq-get_or (set body n 0) n 0 (omega (arith, length-set body n 0))
          ∙ ap some (get_or-set_self body n 0 0 room),
      length-set body n 0 ∙ length-splice 0 bs result,
    )

-- Into an array that has room for the bytes only, as those that `initLora` declares, the terminator
-- of a full-length text is written past the end.
pub convert_overflow :
    (bs result rest : List ℕ)
    → AllBytes bs
    → length bs ≡ length result
    → convert_and_check_hex_array result (hex_of bs ++ rest) (length bs) ≡ none
unfolding convert_and_check_hex_array finish
convert_overflow bs result rest ok_bytes h = rw (
  convert_loop-hex_of bs result rest 0 false ok_bytes (omega arith),
  store_beyond (splice 0 bs result) (0 + length bs) 0 (omega (arith, length-splice 0 bs result)),
)
