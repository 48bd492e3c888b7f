-- ===== src/Command/Keeps.antt =====
-- What a line leaves of the state: nothing changes without a command, and a property that every
-- command keeps is kept.
use mathlib.Core.Option.{some-injective}
use docker_applications.Common.{
  ℕ, zero, suc, ◌≡◌, refl, subst, Bool, true, false, Option, none, some, List, [], ◌∷◌, get_elem?,
  arith,
}
use docker_applications.Command.{Command, find_command, exec_func_of, exec_command}

module _ {ℓ} {S : Type ℓ} where
  -- A line that is no command of a table changes nothing.
  pub exec_command_unknown :
      (table : List (Command S)) (line : List ℕ) (s : S)
      → (exec_command table line s).0 ≡ false
      → (exec_command table line s).1 ≡ s
  unfolding exec_command
  exec_command_unknown table line s h = ground arith

module _ {S : Type 0} (P : S → Type 0) where
  -- The function of a command keeps `P`, and so do those of a table.
  abbrev pub KeepsFunc : Option (List ℕ → S → S) → Type 0
  KeepsFunc none = Unit
  KeepsFunc (some f) = (rest : List ℕ) (s : S) → P s → P (f rest s)

  abbrev pub AllKeep : List (Command S) → Type 0
  AllKeep [] = Unit
  AllKeep (c ∷ table) = KeepsFunc c.exec_func × AllKeep table

  get_elem?-KeepsFunc :
      (table : List (Command S)) (i : ℕ) (c : Command S)
      → AllKeep table
      → get_elem? table i ≡ some c
      → KeepsFunc c.exec_func
  get_elem?-KeepsFunc [] i c keeps h = absurd (ground arith)
  get_elem?-KeepsFunc (a ∷ table) zero c keeps h =
      subst (λ (x : Command S). KeepsFunc x.exec_func) (some-injective a c h) keeps.0
  get_elem?-KeepsFunc (a ∷ table) (suc i) c keeps h = get_elem?-KeepsFunc table i c keeps.1 h

  func-keeps :
      (f : Option (List ℕ → S → S)) (rest : List ℕ) (s : S)
      → KeepsFunc f
      → P s
      → P (elim f [ none ↦ s | some g ↦ g rest s ])
  func-keeps none rest s keeps h = h
  func-keeps (some g) rest s keeps h = keeps rest s h

  at_index-keeps :
      (table : List (Command S)) (i : ℕ) (found : Option (Command S)) (line : List ℕ) (s : S)
      → get_elem? table i ≡ found
      → AllKeep table
      → P s
      → P
          (elim found as (λ x. Bool × S) [
            | none ↦ (false, s)
            | some c ↦ (true, exec_func_of c line s)
          ]).1
  unfolding exec_func_of
  at_index-keeps table i none line s e keeps h = h
  at_index-keeps table i (some c) line s e keeps h =
      func-keeps c.exec_func _ s (get_elem?-KeepsFunc table i c keeps e) h

  found-keeps :
      (table : List (Command S)) (found : Option ℕ) (line : List ℕ) (s : S)
      → AllKeep table
      → P s
      → P
          (elim found as (λ x. Bool × S) [
            | none ↦ (false, s)
            | some ix ↦ elim (get_elem? table ix) as (λ x. Bool × S) [
              | none ↦ (false, s)
              | some c ↦ (true, exec_func_of c line s)
            ]
          ]).1
  found-keeps table none line s keeps h = h
  found-keeps table (some ix) line s keeps h =
      at_index-keeps table ix (get_elem? table ix) line s refl keeps h

  -- Whatever the line is, what every command of the table keeps is kept.
  pub exec_command-keeps :
      (table : List (Command S)) (line : List ℕ) (s : S)
      → AllKeep table
      → P s
      → P (exec_command table line s).1
  unfolding exec_command
  exec_command-keeps table line s keeps h =
      found-keeps table (find_command table line) line s keeps h
