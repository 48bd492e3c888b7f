-- ===== src/Tracker/InitLora/FullKey.antt =====
-- What `initLora` does with a key of full length, and with one that is no key.
use docker_applications.Common.{
  ℕ, zero, suc, ◌+◌, ◌<◌, ◌≡◌, refl, subst, ◌∙◌, Bool, true, false, ◌||◌, not, none, List, [], ◌∷◌,
  length, length-set, set, ltb, ◌==◌, if◌then◌else◌, Bool-cases, inl, inr, arith,
}
use docker_applications.Config.{ConfigParams}
use docker_applications.Tracker.Hex.{
  convert_and_check_hex_array, convert_loop, finish, hex_pair_to_byte, isxdigit,
}
use docker_applications.Tracker.Hex.Convert.{store_within, store_beyond}
use docker_applications.Tracker.InitLora.{LoRaDriver, Keys, convert_keys, init_lora}

-- A text that begins with two hexadecimal digits, of either case, for each of `n` bytes.
abbrev pub IsKey : ℕ → List ℕ → Type 0
IsKey zero text = Unit
IsKey (suc n) [] = ⊥
IsKey (suc n) (h ∷ []) = ⊥
IsKey (suc n) (h ∷ l ∷ text) = (isxdigit h ≡ true) × (isxdigit l ≡ true) × IsKey n text

digit-shown : (c : ℕ) → isxdigit c ≡ true → (c == 0) ≡ false
unfolding isxdigit
digit-shown c h = ground arith

-- One round of the loop at two digits.
convert_loop-digits :
    (n h l i : ℕ) (result text : List ℕ) (found : Bool)
    → isxdigit h ≡ true
    → isxdigit l ≡ true
    → i < length result
    → convert_loop (suc n) result (h ∷ l ∷ text) i found
      ≡ convert_loop n
          (set result i (hex_pair_to_byte h l))
          text
          (i + 1)
          (ltb 0 (hex_pair_to_byte h l) || found)
unfolding convert_loop
convert_loop-digits n h l i result text found hex_h hex_l room =
    rw
      (
        digit-shown h hex_h,
        digit-shown l hex_l,
        hex_h,
        hex_l,
        store_within result i (hex_pair_to_byte h l) room,
      )
      refl

convert_loop-IsKey :
    (n i : ℕ) (result text : List ℕ) (found : Bool)
    → IsKey n text
    → i + n ≡ length result
    → convert_loop n result text i found ≡ none
unfolding convert_loop finish
convert_loop-IsKey zero i result text found key full =
    rw (store_beyond result i 0 (omega arith)) refl
convert_loop-IsKey (suc n) i result [] found key full = elim key [ ]
convert_loop-IsKey (suc n) i result (h ∷ []) found key full = elim key [ ]
convert_loop-IsKey (suc n) i result (h ∷ l ∷ text) found key full =
    let byte = hex_pair_to_byte h l in
    convert_loop-digits n h l i result text found key.0 key.1 (omega arith)
    ∙ convert_loop-IsKey n (i + 1) (set result i byte) text (ltb 0 byte || found) key.2
        (omega (arith, length-set result i byte))

-- The size of the first key.
abbrev pub dev_size : ConfigParams → ℕ
dev_size p = if not (p.is_otaa_enabled == 0) then 8 else 4

convert_keys_overflow :
    (n1 n2 n3 : ℕ) (p : ConfigParams) (k : Keys)
    → IsKey n1 p.dev_addr_or_eui
    → length k.dev ≡ n1
    → convert_keys n1 n2 n3 p k ≡ none
unfolding convert_keys convert_and_check_hex_array
convert_keys_overflow n1 n2 n3 p k text size =
    rw (convert_loop-IsKey n1 0 k.dev p.dev_addr_or_eui false text (omega arith)) refl

module _ (driver : LoRaDriver) where
  -- If the text of the device's address or EUI begins with as many hexadecimal digits, of either case,
  -- as the bytes of the array for it take, the terminator is written past the end of that
  -- array, in both modes.
  pub init_lora_overflow :
      (p : ConfigParams) (k : Keys) (lora : driver.State)
      → IsKey (dev_size p) p.dev_addr_or_eui
      → length k.dev ≡ dev_size p
      → init_lora driver p k lora ≡ none
  unfolding init_lora
  init_lora_overflow p k lora text size = elim (Bool-cases (p.is_otaa_enabled == 0)) [
    | inl abp ↦
        let n : dev_size p ≡ 4 = rw abp refl in
        let text' = subst (λ m. IsKey m p.dev_addr_or_eui) n text in
        rw (abp, convert_keys_overflow 4 16 16 p k text' (size ∙ n)) refl
    | inr otaa ↦
        let n : dev_size p ≡ 8 = rw otaa refl in
        let text' = subst (λ m. IsKey m p.dev_addr_or_eui) n text in
        rw (otaa, convert_keys_overflow 8 8 16 p k text' (size ∙ n)) refl
  ]
