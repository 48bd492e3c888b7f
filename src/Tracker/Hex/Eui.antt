-- ===== src/Tracker/Hex/Eui.antt =====
-- `setDevAddrOrEUItoHWEUI`: the hardware EUI as the device's key, and back.
use native.Mathlib.Numerals.{add-one}
use docker_applications.Common.{
  Bool, Option, none, true, ℕ, suc, ◌+◌, ◌*◌, ◌<◌, ◌≤◌, ◌≡◌, refl, sym, ap, ◌∙◌, some, List, [],
  ◌∷◌, ◌++◌, length, set, arith, length-set, drop,
}
use docker_applications.Common.Memory.{slice, splice, splice-nil, splice-prefix}
use docker_applications.Tracker.Hex.{
  HwEui, get_hw_eui_and_firm_ver, nibble_to_hex_char, high_nibble, low_nibble, set_dev_addr_loop,
  set_dev_addr_or_eui_to_hw_eui, convert_and_check_hex_array,
}
use docker_applications.Tracker.Hex.Convert.{
  hex_of, AllBytes, any_non_zero, convert-hex_of, convert_overflow, store_within, splice-set,
}

length-hex_of : (bs : List ℕ) → length (hex_of bs) ≡ length bs * 2
length-hex_of [] = refl
length-hex_of (b ∷ bs) = omega (arith, length-hex_of bs)

set_dev_addr_loop-hex_of :
    (bs chars : List ℕ) (i : ℕ)
    → i * 2 + length bs * 2 ≤ length chars
    → set_dev_addr_loop bs i chars ≡ some (splice (i * 2) (hex_of bs) chars)
unfolding set_dev_addr_loop
set_dev_addr_loop-hex_of [] chars i h = ap some (sym (splice-nil (i * 2) chars))
set_dev_addr_loop-hex_of (b ∷ bs) chars i h =
    let h_char : ℕ = nibble_to_hex_char (high_nibble b) in
    let l_char : ℕ = nibble_to_hex_char (low_nibble b) in
    let chars' : List ℕ = set chars (i * 2) h_char in
    rw
      (
        store_within chars (i * 2) h_char (omega arith),
        store_within chars' (i * 2 + 1) l_char (omega (arith, length-set chars (i * 2) h_char)),
        set_dev_addr_loop-hex_of bs (set chars' (i * 2 + 1) l_char) (i + 1)
            (omega (arith, length-set chars (i * 2) h_char, length-set chars' (i * 2 + 1) l_char)),
      )
      (let twice : (i + 1) * 2 ≡ suc (suc (i * 2)) = omega arith in
        ap some (
          rw (twice, add-one (i * 2))
            (splice-set (suc (i * 2)) l_char (hex_of bs) chars'
                (omega (arith, length-set chars (i * 2) h_char))
              ∙ splice-set (i * 2) h_char (l_char ∷ hex_of bs) chars (omega arith))))

-- Once the hardware EUI is known, it replaces the first two characters for each of its bytes and
-- leaves the rest of the key. Read back into an array that is larger than the EUI, the key gives the
-- EUI, and is accepted unless all its bytes are zero; into an array of the EUI's own size, as
-- `initLora` has them, the terminator is written past the end.
pub convert-set_dev_addr :
    (inited : Option Bool) (answer : ℕ × List ℕ) (h h' : HwEui) (chars result exact : List ℕ)
    → get_hw_eui_and_firm_ver inited answer h ≡ some h'
    → h'.is_initialized ≡ true
    → AllBytes h'.bytes
    → length h'.bytes * 2 ≤ length chars
    → length h'.bytes < length result
    → length h'.bytes ≡ length exact
    → (key after : List ℕ) × (set_dev_addr_or_eui_to_hw_eui inited answer h chars ≡ some (h', key))
      × (key ≡ hex_of h'.bytes ++ drop (length h'.bytes * 2) chars)
      × (convert_and_check_hex_array result key (length h'.bytes)
          ≡ some (any_non_zero h'.bytes, after))
      × (slice 0 (length h'.bytes) after ≡ h'.bytes)
      × (convert_and_check_hex_array exact key (length h'.bytes) ≡ none)
unfolding set_dev_addr_or_eui_to_hw_eui
convert-set_dev_addr inited answer h h' chars result exact is known ok_bytes fits room full =
    let bs : List ℕ = h'.bytes in
    let tail : List ℕ = drop (length bs * 2) chars in
    let (after, converts, reads, _, _) = convert-hex_of bs result tail ok_bytes room in
    let key_is : splice 0 (hex_of bs) chars ≡ hex_of bs ++ tail =
      splice-prefix (hex_of bs) chars (omega (arith, length-hex_of bs))
      ∙ ap (λ n. hex_of bs ++ drop n chars) (length-hex_of bs) in
    (
      hex_of bs ++ tail,
      after,
      rw (is, known, set_dev_addr_loop-hex_of bs chars 0 (omega arith), key_is) refl,
      refl,
      converts,
      reads,
      convert_overflow bs exact tail ok_bytes full,
    )
