-- ===== src/Tracker/Hex.antt =====
-- The LoRa keys of nodes/SodaqOneDevice/SodaqOneDevice.ino: hexadecimal text and bytes.
-- `none` is an access out of the bounds of an array.
pub mod Convert
pub mod Eui
use docker_applications.Common.{
  ℕ, zero, suc, ◌+◌, ◌-◌, ◌*◌, ◌/◌, ◌%◌, Bool, true, false, not, ◌&&◌, ◌||◌, Option, none, some,
  ◌>>=◌, List, [], ◌∷◌, length, set, leb, ltb, ◌==◌, if◌then◌else◌,
}

-- NIBBLE_TO_HEX_CHAR, HIGH_NIBBLE and LOW_NIBBLE
unfoldable pub nibble_to_hex_char : ℕ → ℕ
nibble_to_hex_char i = if leb i 9 then b'0' + i else b'A' - 10 + i

abbrev pub high_nibble : ℕ → ℕ
high_nibble i = i / 16 % 16

abbrev pub low_nibble : ℕ → ℕ
low_nibble i = i % 16

-- HEX_CHAR_TO_NIBBLE and HEX_PAIR_TO_BYTE, assigned to a `uint8_t`. They are used on hexadecimal
-- digits only, where no difference is negative.
unfoldable pub hex_char_to_nibble : ℕ → ℕ
hex_char_to_nibble c =
    if leb b'a' c then c - b'a' + 0x0A else if leb b'A' c then c - b'A' + 0x0A else c - b'0'

unfoldable pub hex_pair_to_byte : ℕ → ℕ → ℕ
hex_pair_to_byte h l = (hex_char_to_nibble h * 16 + hex_char_to_nibble l) % 256

-- the C library's `isxdigit`
unfoldable pub isxdigit : ℕ → Bool
isxdigit c = (leb b'0' c && leb c b'9') || (leb b'a' c && leb c b'f') || (leb b'A' c && leb c b'F')

-- A write of one byte into an array.
unfoldable pub store : List ℕ → ℕ → ℕ → Option (List ℕ)
store result i v = if ltb i (length result) then some (set result i v) else none

-- The string terminator that `convertAndCheckHexArray` writes when its loop ends.
unfoldable pub finish : List ℕ → ℕ → Bool → Option (Bool × List ℕ)
finish result output_index found_non_zero =
    store result output_index 0 >>= λ r. some (found_non_zero, r)

-- The loop of `convertAndCheckHexArray`, with `left` bytes of the output to go; `hex` is the text
-- from `inputIndex` on. The result is what it returns and the array that it leaves.
unfoldable pub convert_loop : ℕ → List ℕ → List ℕ → ℕ → Bool → Option (Bool × List ℕ)
convert_loop zero result hex output_index found_non_zero = finish result output_index found_non_zero
convert_loop (suc left) result [] output_index found_non_zero = none
convert_loop (suc left) result (h ∷ []) output_index found_non_zero =
    if h == 0 then finish result output_index found_non_zero else none
convert_loop (suc left) result (h ∷ l ∷ hex) output_index found_non_zero =
    let byte = hex_pair_to_byte h l in
    let next = store result output_index byte >>= λ r.
    convert_loop left r hex (output_index + 1) (ltb 0 byte || found_non_zero) in
    if h == 0 || l == 0
    then finish result output_index found_non_zero
    else if not (isxdigit h) || not (isxdigit l)
    then some (false, result)
    else next

unfoldable pub convert_and_check_hex_array : List ℕ → List ℕ → ℕ → Option (Bool × List ℕ)
convert_and_check_hex_array result hex result_size = convert_loop result_size result hex 0 false

-- The loop of `setDevAddrOrEUItoHWEUI` over the bytes of `loraHWEui`, at byte `i`; `chars` is
-- `params._devAddrOrEUI`.
unfoldable pub set_dev_addr_loop : List ℕ → ℕ → List ℕ → Option (List ℕ)
set_dev_addr_loop [] i chars = some chars
set_dev_addr_loop (b ∷ bs) i chars = do
  chars' ← store chars (i * 2) (nibble_to_hex_char (high_nibble b))
  chars'' ← store chars' (i * 2 + 1) (nibble_to_hex_char (low_nibble b))
  set_dev_addr_loop bs (i + 1) chars''

-- `isLoraHWEuiInitialized` and `loraHWEui`
pub record HwEui : Type 0 where
  pub is_initialized : Bool
  pub bytes : List ℕ

-- `getHWEUIAndFirmVer`: the EUI is read once. `inited` is what `initLora(true)` returns, or an access
-- out of bounds in it; its result is not looked at. `answer` is what `LoRaBee.getHWEUI` returns and
-- the array that it leaves. Switching the module on and off and its firmware version are left out.
unfoldable pub get_hw_eui_and_firm_ver : Option Bool → ℕ × List ℕ → HwEui → Option HwEui
get_hw_eui_and_firm_ver inited answer h =
    if not h.is_initialized
    then (inited >>= λ ok.
        some (record { is_initialized = answer.0 == length h.bytes; bytes = answer.1 }))
    else some h

unfoldable pub set_dev_addr_or_eui_to_hw_eui :
    Option Bool → ℕ × List ℕ → HwEui → List ℕ → Option (HwEui × List ℕ)
unfolding get_hw_eui_and_firm_ver
set_dev_addr_or_eui_to_hw_eui inited answer h dev_addr_or_eui = do
  h' ← get_hw_eui_and_firm_ver inited answer h
  if h'.is_initialized
      then (set_dev_addr_loop h'.bytes 0 dev_addr_or_eui >>= λ chars. some (h', chars))
      else some (h', dev_addr_or_eui)
