-- ===== src/Command/Text.antt =====
-- The functions of the C library that nodes/SodaqOneDevice/Command.cpp calls, on characters:
-- `strncasecmp` over the length of a prefix, `strncpy`, and `strtoul` in base 0 with a `long` of 32
-- bits.
use docker_applications.Common.{
  ℕ, ◌+◌, ◌-◌, ◌*◌, ◌%◌, ◌^◌, Bool, true, false, ◌&&◌, ◌||◌, Option, none, some, List, [], ◌∷◌,
  ◌++◌, take, set, replicate, leb, ltb, ◌==◌, if◌then◌else◌,
}

abbrev pub to_lower : ℕ → ℕ
to_lower c = if leb b'A' c && leb c b'Z' then c + 32 else c

-- `strncasecmp(line, prefix, strlen(prefix)) == 0`
unfoldable pub starts_with_no_case : List ℕ → List ℕ → Bool
starts_with_no_case line [] = true
starts_with_no_case [] (p ∷ ps) = false
starts_with_no_case (c ∷ cs) (p ∷ ps) = to_lower c == to_lower p && starts_with_no_case cs ps

-- `strncpy(ptr, line, size)` fills up with zeros.
unfoldable pub strncpy : ℕ → List ℕ → List ℕ
strncpy size line = take size (line ++ replicate size 0)

-- `ptr[size - 1] = '\0'`
unfoldable pub terminate : ℕ → List ℕ → List ℕ
terminate size chars = set chars (size - 1) 0

unfoldable pub digit_of : ℕ → Option ℕ
digit_of c =
    if leb b'0' c && leb c b'9'
    then some (c - b'0')
    else if leb b'a' c && leb c b'z'
    then some (c - b'a' + 10)
    else if leb b'A' c && leb c b'Z'
    then some (c - b'A' + 10)
    else none

-- The value of the digits that stand first.
unfoldable pub digits_value : ℕ → ℕ → List ℕ → ℕ
unfolding digit_of
digits_value base acc [] = acc
digits_value base acc (c ∷ cs) =
    let rest = λ (d : ℕ). digits_value base (acc * base + d) cs in
    elim (digit_of c) [ none ↦ acc | some d ↦ if ltb d base then rest d else acc ]

abbrev pub ulong_max : ℕ
ulong_max = 2 ^ 32 - 1

abbrev pub is_space : ℕ → Bool
is_space c = c == b' ' || (leb 9 c && leb c 13)

unfoldable pub skip_spaces : List ℕ → List ℕ
skip_spaces [] = []
skip_spaces (c ∷ cs) = if is_space c then skip_spaces cs else c ∷ cs

-- Behind the sign: base 16 after "0x", base 8 after "0", else base 10.
unfoldable pub magnitude : List ℕ → ℕ
magnitude [] = 0
magnitude (c ∷ []) = digits_value 10 0 (c ∷ [])
magnitude (c ∷ d ∷ cs) =
    if c == b'0'
    then (if d == b'x' || d == b'X' then digits_value 16 0 cs else digits_value 8 0 (d ∷ cs))
    else digits_value 10 0 (c ∷ d ∷ cs)

-- A value out of range is cut to the greatest; a minus sign negates modulo 2 ^ 32.
abbrev pub negate_if : Bool → ℕ → ℕ
negate_if negative v =
    if ltb ulong_max v then ulong_max else if negative then (2 ^ 32 - v) % 2 ^ 32 else v

unfoldable pub signed_value : List ℕ → ℕ
signed_value [] = 0
signed_value (c ∷ cs) =
    if c == b'-'
    then negate_if true (magnitude cs)
    else if c == b'+'
    then negate_if false (magnitude cs)
    else negate_if false (magnitude (c ∷ cs))

unfoldable pub strtoul : List ℕ → ℕ
strtoul line = signed_value (skip_spaces line)
