-- ===== src/Command.antt =====
-- nodes/SodaqOneDevice/Command.cpp and Command.h: the table of commands that the boot menu
-- offers. A line is the list of its characters up to the terminator. What the `show` functions
-- print is not modelled.
pub mod Text
pub mod Find
pub mod Keeps
pub mod Value
use docker_applications.Common.{
  ℕ, zero, suc, ◌+◌, ◌-◌, ◌%◌, ◌^◌, Bool, true, false, Option, none, some, List, [], ◌∷◌, length,
  drop, get_elem?, if◌then◌else◌,
}
use Text.{starts_with_no_case, strtoul, strncpy, terminate}

-- Where `value` points: a variable of type `A` within the state.
pub record Cell {ℓ} (S : Type ℓ) (A : Type 0) : Type ℓ where
  pub get : S → A
  pub put : A → S → S

pub record Command {ℓ} (S : Type ℓ) : Type ℓ where
  pub cmd_prefix : List ℕ
  pub exec_func : Option (List ℕ → S → S)

module _ {ℓ} {S : Type ℓ} where
  -- The loop of `findCommand` at index `i`; `none` stands for -1.
  unfoldable pub find_from : List (Command S) → ℕ → List ℕ → Option ℕ
  unfolding starts_with_no_case
  find_from [] i line = none
  find_from (a ∷ args) i line =
      if starts_with_no_case line a.cmd_prefix then some i else find_from args (i + 1) line

  unfoldable pub find_command : List (Command S) → List ℕ → Option ℕ
  unfolding find_from
  find_command args line = find_from args 0 line

  unfoldable pub exec_func_of : Command S → List ℕ → S → S
  exec_func_of c line s = elim c.exec_func [
    | none ↦ s
    | some f ↦ f (drop (length c.cmd_prefix) line) s
  ]

  -- Whether the line was a valid command, and the state after it.
  unfoldable pub exec_command : List (Command S) → List ℕ → S → Bool × S
  unfolding exec_func_of
  exec_command args line s = elim (find_command args line) [
    | none ↦ (false, s)
    | some ix ↦ elim (get_elem? args ix) [
      | none ↦ (false, s)
      | some c ↦ (true, exec_func_of c line s)
    ]
  ]

  unfoldable pub set_string : Option (Cell S (List ℕ)) → ℕ → List ℕ → S → S
  unfolding strncpy terminate
  set_string none param_size line s = s
  set_string (some ptr) param_size line s =
      ptr.put (terminate param_size (strncpy param_size line)) s

  unfoldable pub set_uint8 : Option (Cell S ℕ) → List ℕ → S → S
  unfolding strtoul
  set_uint8 none line s = s
  set_uint8 (some ptr) line s = ptr.put (strtoul line % 2 ^ 8) s

  unfoldable pub set_uint16 : Option (Cell S ℕ) → List ℕ → S → S
  unfolding strtoul
  set_uint16 none line s = s
  set_uint16 (some ptr) line s = ptr.put (strtoul line % 2 ^ 16) s

  unfoldable pub set_uint32 : Option (Cell S ℕ) → List ℕ → S → S
  unfolding strtoul
  set_uint32 none line s = s
  set_uint32 (some ptr) line s = ptr.put (strtoul line % 2 ^ 32) s
