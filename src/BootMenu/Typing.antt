-- ===== src/BootMenu/Typing.antt =====
-- What the line editor returns.
use mathlib.Core.List.{append_assoc, append-nil}
use docker_applications.Common.{
  ℕ, zero, suc, ◌+◌, ◌-◌, ◌%◌, ◌^◌, ◌≤◌, ◌<◌, ◌≡◌, refl, ap, sym, ◌∙◌, false, ◌&&◌, ◌||◌, Option,
  none, some, List, [], ◌∷◌, ◌++◌, length, length-append, take, leb, ltb, ◌==◌, Bool-cases, inl,
  inr, arith, lt→ltb, le→ltb, le→leb, ne→==, ltb→lt, ltb→le,
}
use docker_applications.Common.Memory.{length-take}
use docker_applications.BootMenu.{
  is_timed_out, boot_menu_timeout, Poll, Editor, Read, erase, ends_line, on_input, stored, edit,
  read_line, start_editor,
}
use docker_applications.Tracker.Transmit.{Run, done}

length-stored :
    (size c : ℕ) (line : List ℕ) → length line < size → length (stored size c line) < size
length-stored size c line h = elim (Bool-cases (ltb (length line) (size - 1))) [
  | inl room ↦
      let below = ltb→lt (length line) (size - 1) room in
      elim (Bool-cases (leb 0x20 c && ltb c 0x7F)) [
        | inl shown ↦ rw (room, shown) (omega (arith, below, length-append line (c ∷ [])))
        | inr control ↦ rw (room, control) h
      ]
  | inr full ↦ rw full h
]

length-erase : (size : ℕ) (line : List ℕ) → length line < size → length (erase line) < size
length-erase size line h = omega (arith, length-take (length line - 1) line (omega arith))

-- The line stays shorter than the array.
edit-short :
    (size millis c : ℕ) (e : Editor)
    → length e.line < size
    → length (edit size millis c e).line < size
unfolding edit
edit-short size millis c e h = elim (Bool-cases (c == 13)) [
  | inl cr ↦ rw cr h
  | inr other ↦ rw other (elim (Bool-cases (c == 8 || c == 0x7F)) [
    | inl back ↦ rw back (length-erase size e.line h)
    | inr normal ↦ rw normal (length-stored size c e.line h)
  ])
]

abbrev Short : ℕ → Option (List ℕ) → Type 0
Short size none = Unit
Short size (some line) = length line < size

-- The text of a result, if there is one, is shorter than `size`, and the result leaves no more
-- rounds than it had.
abbrev pub ShortText : ℕ → Run Read → Type 0
ShortText size (done r) = Short size r.text
ShortText size _ = Unit

on_input-ShortText :
    (size millis : ℕ) (again : Editor → Run Read) (rest : List Poll) (e : Editor) (i : Option ℕ)
    → length e.line < size
    → ((e' : Editor) → length e'.line < size → ShortText size (again e'))
    → ShortText size (on_input size millis again rest e i)
on_input-ShortText size millis again rest e none h later = later e h
on_input-ShortText size millis again rest e (some c) h later = elim (Bool-cases (c == 0)) [
  | inl nul ↦ rw nul (later e h)
  | inr other ↦ rw other (elim (Bool-cases (c == 10)) [
    | inl feed ↦ rw feed h
    | inr edits ↦ rw edits (later (edit size millis c e) (edit-short size millis c e h))
  ])
]

-- Whatever is typed, at whatever times, and whether or not there was a line in the array before:
-- a line that `readLine` returns leaves room for the terminator in the array.
pub read_line-ShortText :
    (size : ℕ) (polls : List Poll) (e : Editor)
    → length e.line < size
    → ShortText size (read_line size polls e)
unfolding read_line
read_line-ShortText size [] e h = tt
read_line-ShortText size (p ∷ ps) e h = elim (Bool-cases (is_timed_out p.millis e.ts_max)) [
  | inl late ↦ rw late tt
  | inr early ↦ rw early (elim (Bool-cases (e.seen_cr && ends_line p e.ts_wait_lf)) [
    | inl ends ↦ rw ends h
    | inr goes_on ↦ rw goes_on (
        on_input-ShortText size p.millis (λ e'. read_line size ps e') ps e p.input h
          (λ e' h'. read_line-ShortText size ps e' h'))
  ])
]

take-nil : (n : ℕ) → take {A = ℕ} n [] ≡ []
take-nil zero = refl
take-nil (suc n) = refl

-- Characters that can be shown.
abbrev pub Shown : List ℕ → Type 0
Shown [] = Unit
Shown (c ∷ cs) = ((0x20 ≤ c) × (c < 0x7F)) × Shown cs

-- The rounds in which characters are typed, one in each.
abbrev pub typed : ℕ → List ℕ → List Poll → List Poll
typed millis [] rest = rest
typed millis (c ∷ cs) rest = record { millis = millis; input = some c } ∷ typed millis cs rest

pub just_extended :
    (millis : ℕ)
    → millis < 2 ^ 32
    → is_timed_out millis ((millis + boot_menu_timeout) % 2 ^ 32) ≡ false
unfolding is_timed_out
just_extended millis h =
    le→ltb ((millis + 2 ^ 32 - (millis + 30000) % 2 ^ 32) % 2 ^ 32) (2 ^ 31) (omega arith)

stored-take :
    (size c : ℕ) (line cs : List ℕ)
    → 0x20 ≤ c
    → c < 0x7F
    → stored size c line ++ take (size - 1 - length (stored size c line)) cs
      ≡ line ++ take (size - 1 - length line) (c ∷ cs)
stored-take size c line cs lo hi = elim (Bool-cases (ltb (length line) (size - 1))) [
  | inl room ↦
      let below = ltb→lt (length line) (size - 1) room in
      let left : size - 1 - length line ≡ suc (size - 1 - length (line ++ (c ∷ []))) =
        omega (arith, length-append line (c ∷ [])) in
      rw (room, le→leb 0x20 c lo, lt→ltb c 0x7F hi, left)
        (append_assoc line (c ∷ []) (take (size - 1 - length (line ++ (c ∷ []))) cs))
  | inr full ↦
      let none_left : size - 1 - length line ≡ 0 =
        omega (arith, ltb→le (length line) (size - 1) full) in
      rw (full, none_left) refl
]

-- A character that can be shown, in a round in time.
round_typed :
    (size millis c : ℕ) (rest : List Poll) (e : Editor)
    → is_timed_out millis e.ts_max ≡ false
    → e.seen_cr ≡ false
    → 0x20 ≤ c
    → c < 0x7F
    → read_line size (record { millis = millis; input = some c } ∷ rest) e
      ≡ read_line size rest (record {
        line = stored size c e.line;
        seen_cr = false;
        ts_wait_lf = e.ts_wait_lf;
        ts_max = (millis + boot_menu_timeout) % 2 ^ 32;
      })
unfolding read_line edit
round_typed size millis c rest e early fresh lo hi =
    rw
      (
        early,
        fresh,
        ne→== c 0 (omega arith),
        ne→== c 10 (omega arith),
        ne→== c 13 (omega arith),
        ne→== c 8 (omega arith),
        ne→== c 0x7F (omega arith),
      )
      refl

line_feed :
    (size millis : ℕ) (rest : List Poll) (e : Editor)
    → is_timed_out millis e.ts_max ≡ false
    → e.seen_cr ≡ false
    → read_line size (record { millis = millis; input = some 10 } ∷ rest) e
      ≡ done (record {
        text = some e.line;
        ts_max = (millis + boot_menu_timeout) % 2 ^ 32;
        rest = rest;
      })
unfolding read_line
line_feed size millis rest e early fresh = simp (early, fresh)

-- What was typed, with what was in the line before.
typed_from :
    (size millis : ℕ) (cs : List ℕ) (rest : List Poll) (e : Editor)
    → millis < 2 ^ 32
    → is_timed_out millis e.ts_max ≡ false
    → e.seen_cr ≡ false
    → Shown cs
    → read_line size (typed millis cs (record { millis = millis; input = some 10 } ∷ rest)) e
      ≡ done (record {
        text = some (e.line ++ take (size - 1 - length e.line) cs);
        ts_max = (millis + boot_menu_timeout) % 2 ^ 32;
        rest = rest;
      })
typed_from size millis [] rest e small early fresh shown =
    line_feed size millis rest e early fresh
    ∙ ap
        (λ line. done (record {
          text = some line;
          ts_max = (millis + boot_menu_timeout) % 2 ^ 32;
          rest = rest;
        }))
        (sym (ap (λ t. e.line ++ t) (take-nil (size - 1 - length e.line)) ∙ append-nil e.line))
typed_from size millis (c ∷ cs) rest e small early fresh shown =
    round_typed size millis c (typed millis cs (record { millis = millis; input = some 10 } ∷ rest))
      e early fresh shown.0.0 shown.0.1
    ∙ typed_from size millis cs rest _ small (just_extended millis small) refl shown.1
    ∙ ap
        (λ line. done (record {
          text = some line;
          ts_max = (millis + boot_menu_timeout) % 2 ^ 32;
          rest = rest;
        }))
        (stored-take size c e.line cs shown.0.0 shown.0.1)

-- Characters that can be shown, typed in time and followed by a line feed, are returned, as many of
-- them as leave room for the terminator; the rounds after the line feed are left, and the time-out
-- is extended by 30 seconds.
pub read_line-typed :
    (size millis : ℕ) (cs : List ℕ) (rest : List Poll) (ts_max : ℕ)
    → millis < 2 ^ 32
    → is_timed_out millis ts_max ≡ false
    → Shown cs
    → read_line size
        (typed millis cs (record { millis = millis; input = some 10 } ∷ rest))
        (start_editor ts_max)
      ≡ done (record {
        text = some (take (size - 1) cs);
        ts_max = (millis + boot_menu_timeout) % 2 ^ 32;
        rest = rest;
      })
read_line-typed size millis cs rest ts_max small early shown =
    typed_from size millis cs rest (start_editor ts_max) small early refl shown
    ∙ ap
        (λ n. done (record {
          text = some (take n cs);
          ts_max = (millis + boot_menu_timeout) % 2 ^ 32;
          rest = rest;
        }))
        (let e : size - 1 - 0 ≡ size - 1 = omega arith in e)
