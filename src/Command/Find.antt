-- ===== src/Command/Find.antt =====
-- `Command::findCommand` and `execCommand`: which command a line runs.
use mathlib.Core.Option.{some-injective}
use docker_applications.Common.{
  ℕ, zero, suc, ◌+◌, ◌≡◌, refl, ap, ◌∙◌, Bool, true, false, not, ◌&&◌, none, some, List, [], ◌∷◌,
  ◌++◌, length, drop, get_elem?, ◌==◌, if◌then◌else◌, arith, eq→==, Bool-cases, inl, inr,
}
use docker_applications.Command.Text.{to_lower, starts_with_no_case}
use docker_applications.Command.{Command, find_from, find_command, exec_command}

-- Two prefixes such that a line can begin with both.
unfoldable pub clash : List ℕ → List ℕ → Bool
clash [] q = true
clash (a ∷ p) [] = true
clash (a ∷ p) (b ∷ q) = to_lower a == to_lower b && clash p q

module _ {ℓ} {S : Type ℓ} where
  unfoldable pub clashes : List ℕ → List (Command S) → Bool
  unfolding clash
  clashes p [] = false
  clashes p (c ∷ cs) = if clash p c.cmd_prefix then true else clashes p cs

  -- No line begins with the prefixes of two commands of the table.
  unfoldable pub prefix_free : List (Command S) → Bool
  unfolding clashes
  prefix_free [] = true
  prefix_free (c ∷ cs) = not (clashes c.cmd_prefix cs) && prefix_free cs

starts_with_self : (p rest : List ℕ) → starts_with_no_case (p ++ rest) p ≡ true
unfolding starts_with_no_case
starts_with_self [] rest = refl
starts_with_self (c ∷ p) rest = rw (eq→== (to_lower c) (to_lower c) refl) (starts_with_self p rest)

pub starts_with_other :
    (p q rest : List ℕ) → clash q p ≡ false → starts_with_no_case (p ++ rest) q ≡ false
unfolding starts_with_no_case clash
starts_with_other p [] rest h = absurd (ground arith)
starts_with_other [] (b ∷ q) rest h = absurd (ground arith)
starts_with_other (a ∷ p) (b ∷ q) rest h = ground (arith, starts_with_other p q rest)

drop-append {ℓ} : {A : Type ℓ} (p rest : List A) → drop (length p) (p ++ rest) ≡ rest
drop-append [] rest = refl
drop-append (x ∷ p) rest = drop-append p rest

module _ {ℓ} {S : Type ℓ} where
  clash_of_mem :
      (p : List ℕ) (args : List (Command S)) (i : ℕ) (c : Command S)
      → clashes p args ≡ false
      → get_elem? args i ≡ some c
      → clash p c.cmd_prefix ≡ false
  unfolding clashes
  clash_of_mem p [] i c h e = absurd (ground arith)
  clash_of_mem p (a ∷ args) zero c h e =
      let same : a.cmd_prefix ≡ c.cmd_prefix =
        ap (λ (x : Command S). x.cmd_prefix) (some-injective a c e) in
      rw (← same) (elim (Bool-cases (clash p a.cmd_prefix)) [
        | inl yes_clash ↦ absurd (ground arith)
        | inr no_clash ↦ no_clash
      ])
  clash_of_mem p (a ∷ args) (suc i) c h e = clash_of_mem p args i c (ground arith) e

  find_from-prefix :
      (args : List (Command S)) (k i : ℕ) (c : Command S) (rest : List ℕ)
      → prefix_free args ≡ true
      → get_elem? args i ≡ some c
      → find_from args k (c.cmd_prefix ++ rest) ≡ some (i + k)
  unfolding prefix_free find_from
  find_from-prefix [] k i c rest free h = absurd (ground arith)
  find_from-prefix (a ∷ args) k zero c rest free h =
      let same : a.cmd_prefix ≡ c.cmd_prefix =
        ap (λ (x : Command S). x.cmd_prefix) (some-injective a c h) in
      rw (← same, starts_with_self a.cmd_prefix rest) (ap some (omega arith))
  find_from-prefix (a ∷ args) k (suc i) c rest free h =
      let apart : clash a.cmd_prefix c.cmd_prefix ≡ false =
        clash_of_mem a.cmd_prefix args i c (ground arith) h in
      rw (starts_with_other c.cmd_prefix a.cmd_prefix rest apart)
        (find_from-prefix args (k + 1) i c rest (ground arith) h ∙ ap some (omega arith))

  find_command-prefix :
      (args : List (Command S)) (i : ℕ) (c : Command S) (rest : List ℕ)
      → prefix_free args ≡ true
      → get_elem? args i ≡ some c
      → find_command args (c.cmd_prefix ++ rest) ≡ some i
  unfolding find_command
  find_command-prefix args i c rest free h =
      find_from-prefix args 0 i c rest free h ∙ ap some (omega arith)

  -- In a table where no line begins with two prefixes, a line that begins with the prefix of the
  -- command at index `i` is a valid command and runs that command on what follows the prefix.
  pub exec_command-prefix :
      (args : List (Command S)) (i : ℕ) (c : Command S) (rest : List ℕ) (s : S)
      → prefix_free args ≡ true
      → get_elem? args i ≡ some c
      → (find_command args (c.cmd_prefix ++ rest) ≡ some i)
        × (exec_command args (c.cmd_prefix ++ rest) s
            ≡ (true, elim c.exec_func [ none ↦ s | some f ↦ f rest s ]))
  unfolding exec_command
  exec_command-prefix args i c rest s free h =
      let found = find_command-prefix args i c rest free h in
      (found, ground (arith, found, h, drop-append c.cmd_prefix rest))
