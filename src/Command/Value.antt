-- ===== src/Command/Value.antt =====
-- `Command::set_string` and `set_uint…`: what a text sets.
use docker_applications.Common.{
  ℕ, zero, suc, ◌+◌, ◌-◌, ◌*◌, ◌<◌, ◌≡◌, refl, ap, ◌∙◌, ◌≢◌, some, List, [], ◌∷◌, ◌++◌, map, length,
  take, set, replicate, ◌==◌, min, if◌then◌else◌, arith, ne→==,
}
use docker_applications.Command.Text.{
  digits_value, magnitude, signed_value, skip_spaces, strtoul, ulong_max, strncpy, terminate,
  digit_of,
}

-- The characters of a C string.
abbrev pub c_string : List ℕ → List ℕ
c_string [] = []
c_string (c ∷ cs) = if c == 0 then [] else c ∷ c_string cs

abbrev pub NoZeros : List ℕ → Type 0
NoZeros [] = Unit
NoZeros (c ∷ cs) = (c ≢ 0) × NoZeros cs

-- The characters of a list of decimal digits, and its value.
abbrev pub decimal : List ℕ → List ℕ
decimal ds = map (λ d. d + b'0') ds

abbrev pub value : ℕ → List ℕ → ℕ
value acc [] = acc
value acc (d ∷ ds) = value (acc * 10 + d) ds

abbrev pub IsDigits : List ℕ → Type 0
IsDigits [] = Unit
IsDigits (d ∷ ds) = (d < 10) × IsDigits ds

digit_of-char : (d : ℕ) → d < 10 → digit_of (d + b'0') ≡ some d
unfolding digit_of
digit_of-char d h = ground arith

-- One round of the loop at a digit.
digits_value-cons :
    (d acc : ℕ) (cs : List ℕ)
    → d < 10
    → digits_value 10 acc ((d + b'0') ∷ cs) ≡ digits_value 10 (acc * 10 + d) cs
unfolding digits_value
digits_value-cons d acc cs h = ground arith

digits_value-decimal :
    (ds : List ℕ) (acc : ℕ) → IsDigits ds → digits_value 10 acc (decimal ds) ≡ value acc ds
digits_value-decimal [] acc h = unfold digits_value in refl
digits_value-decimal (d ∷ ds) acc h =
    digits_value-cons d acc (decimal ds) h.0 ∙ digits_value-decimal ds (acc * 10 + d) h.1

magnitude-decimal :
    (d : ℕ) (ds : List ℕ)
    → IsDigits (d ∷ ds)
    → d ≢ 0
    → magnitude (decimal (d ∷ ds)) ≡ digits_value 10 0 (decimal (d ∷ ds))
magnitude-decimal d [] h nz = unfold magnitude in refl
magnitude-decimal d (e ∷ ds) h nz = unfold magnitude in rw (ne→== (d + b'0') b'0' (omega arith))

skip_spaces-digit : (d : ℕ) (cs : List ℕ) → d < 10 → skip_spaces ((d + b'0') ∷ cs) ≡ (d + b'0') ∷ cs
unfolding skip_spaces
skip_spaces-digit d cs h = ground arith

signed_value-digit :
    (d : ℕ) (cs : List ℕ)
    → d < 10
    → signed_value ((d + b'0') ∷ cs) ≡ min (magnitude ((d + b'0') ∷ cs)) ulong_max
unfolding signed_value
signed_value-digit d cs h = ground arith

-- A decimal number without leading zeros is read as its value, cut at the greatest `unsigned long`.
pub strtoul-decimal :
    (d : ℕ) (ds : List ℕ)
    → IsDigits (d ∷ ds)
    → d ≢ 0
    → strtoul (decimal (d ∷ ds)) ≡ min (value 0 (d ∷ ds)) ulong_max
unfolding strtoul
strtoul-decimal d ds h nz = rw (
  skip_spaces-digit d (decimal ds) h.0,
  signed_value-digit d (decimal ds) h.0,
  magnitude-decimal d ds h nz,
  digits_value-decimal (d ∷ ds) 0 h,
)

-- The array after `set_string`, with a line of any length and at least as many zeros behind it.
stored :
    (n r : ℕ) (line : List ℕ)
    → n < r
    → NoZeros line
    → (length (set (take (suc n) (line ++ replicate r 0)) n 0) ≡ suc n)
      × (c_string (set (take (suc n) (line ++ replicate r 0)) n 0) ≡ take n line)
stored n zero line h nz = elim h [ ]
stored zero (suc r) [] h nz = (refl, refl)
stored zero (suc r) (c ∷ line) h nz = (refl, refl)
stored (suc n) (suc r) [] h nz = (ap suc (stored n r [] (omega arith) nz).0, refl)
stored (suc n) (suc r) (c ∷ line) h nz =
    let (size, chars) = stored n (suc r) line (omega arith) nz.1 in
    (ap suc size, rw (ne→== c 0 nz.0) (ap (λ t. c ∷ t) chars))

-- `set_string` into an array of `size` characters keeps its size and leaves a C string: the first
-- `size - 1` characters of the line.
pub set_string_stored :
    (size : ℕ) (line : List ℕ)
    → 0 < size
    → NoZeros line
    → (length (terminate size (strncpy size line)) ≡ size)
      × (c_string (terminate size (strncpy size line)) ≡ take (size - 1) line)
unfolding terminate strncpy
set_string_stored zero line h nz = elim h [ ]
set_string_stored (suc n) line h nz =
    let e : suc n - 1 ≡ n = omega arith in rw e (stored n (suc n) line (omega arith) nz)
