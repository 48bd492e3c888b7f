-- ===== src/BootMenu/Loop/Setting.antt =====
-- A setting that is typed in the boot menu, from the keys to the next start.
use mathlib.Core.Option.{some-injective}
use docker_applications.Common.{
  ℕ, zero, suc, ◌+◌, ◌%◌, ◌^◌, ◌<◌, ◌≡◌, refl, ap, subst, Bool, true, false, not, ◌&&◌, Option,
  none, some, List, [], ◌∷◌, ◌++◌, get_elem?, length, length-append, ltb, ltb→lt, arith, ne→==,
}
use docker_applications.BootMenu.{
  is_timed_out, Poll, boot_menu_timeout, menu_args, is_ok, exec_line,
}
use docker_applications.BootMenu.Loop.{handle_boot_up_commands}
use docker_applications.BootMenu.Loop.Session.{Line, rounds_of, IsTyped, show_boot_menu-session}
use docker_applications.BootMenu.Loop.Saved.{ok_at, ok_is_ok, ok-IsTyped}
use docker_applications.Command.{Command, find_command, find_from, exec_command}
use docker_applications.Command.Find.{clash, starts_with_other, exec_command-prefix}
use docker_applications.Config.{ConfigParams, FlashStorage, ConfigState, read, commit, check_config}
use docker_applications.Config.Args.{args, args-prefix_free, exec_config_command}
use docker_applications.Config.Store.{read-commit, sealed_params, commit_writes}
use docker_applications.Tracker.Transmit.{done}

-- No line that begins with the prefix is "ok" or a command of the menu's own.
abbrev is_apart : Command ConfigParams → Bool
is_apart c =
    ltb 2 (length c.cmd_prefix)
    && (not (clash (b'E' ∷ b'U' ∷ b'I' ∷ []) c.cmd_prefix)
        && not (clash (b'C' ∷ b'S' ∷ []) c.cmd_prefix))

abbrev all_apart : List (Command ConfigParams) → Bool
all_apart [] = true
all_apart (c ∷ cs) = is_apart c && all_apart cs

args-all_apart : all_apart args ≡ true
unfolding clash
args-all_apart = refl

at_index_apart :
    (cs : List (Command ConfigParams)) (i : ℕ) (c : Command ConfigParams)
    → all_apart cs ≡ true
    → get_elem? cs i ≡ some c
    → is_apart c ≡ true
at_index_apart [] i c h e = absurd (ground arith)
at_index_apart (a ∷ cs) zero c h e =
    subst (λ x. is_apart x ≡ true) (some-injective a c e) (ground arith)
at_index_apart (a ∷ cs) (suc i) c h e = at_index_apart cs i c (ground arith) e

-- What a command makes of the parameters.
abbrev pub set_by : Command ConfigParams → List ℕ → ConfigParams → ConfigParams
set_by c text p = elim c.exec_func [ none ↦ p | some f ↦ f text p ]

module _ (fs : FlashStorage) (reset_callback : Option (ConfigState fs → ConfigState fs)) where
  none_found :
      (p text : List ℕ)
      → clash (b'E' ∷ b'U' ∷ b'I' ∷ []) p ≡ false
      → clash (b'C' ∷ b'S' ∷ []) p ≡ false
      → find_command (menu_args fs reset_callback) (p ++ text) ≡ none
  unfolding find_command find_from
  none_found p text eui cs =
      rw (starts_with_other p (b'E' ∷ b'U' ∷ b'I' ∷ []) text eui)
        (rw (starts_with_other p (b'C' ∷ b'S' ∷ []) text cs) refl)

  not_own :
      (p text : List ℕ) (s : ConfigState fs)
      → clash (b'E' ∷ b'U' ∷ b'I' ∷ []) p ≡ false
      → clash (b'C' ∷ b'S' ∷ []) p ≡ false
      → exec_command (menu_args fs reset_callback) (p ++ text) s ≡ (false, s)
  unfolding exec_command
  not_own p text s eui cs = rw (exec_command, none_found p text eui cs) refl

  -- A line that begins with the prefix of a command of the configuration runs that command.
  pub exec_line-prefix :
      (i : ℕ) (c : Command ConfigParams) (text : List ℕ) (s : ConfigState fs)
      → get_elem? args i ≡ some c
      → exec_line fs reset_callback (c.cmd_prefix ++ text) s
        ≡ (true, record s { params = set_by c text s.params; needs_commit = true })
  unfolding exec_line exec_config_command
  exec_line-prefix i c text s e =
      let apart = at_index_apart args i c args-all_apart e in
      rw
        (
          not_own c.cmd_prefix text s (ground arith) (ground arith),
          (exec_command-prefix args i c text s.params args-prefix_free e).1,
        )
        refl

  not_ok :
      (i : ℕ) (c : Command ConfigParams) (text : List ℕ)
      → get_elem? args i ≡ some c
      → is_ok fs reset_callback (c.cmd_prefix ++ text) ≡ false
  not_ok i c text e =
      let apart = at_index_apart args i c args-all_apart e in
      let long = ltb→lt 2 (length c.cmd_prefix) (ground arith) in
      rw
        (ne→== (length (c.cmd_prefix ++ text)) 2
          (omega (arith, long, length-append c.cmd_prefix text)))
        refl

  open fs use {Flash, read_flash, write_flash}

  -- With a flash that reads back what was written, any command of the configuration, typed in time
  -- in front of a text that its line has room for, and an "ok" in time: if the parameters that the
  -- command then gives are in range, the start-up ends with them, sealed by the header and their checksum,
  -- and the next start reads the same, whatever `params` holds before.
  pub handle_boot_up_commands-setting :
      ((p : ConfigParams) (f : Flash) → read_flash (write_flash p f) ≡ p)
      → (i : ℕ) (c : Command ConfigParams) (text : List ℕ) (start : Poll) (m n : ℕ)
        (rest : List Poll)
      → (more : List (List Poll)) (s : ConfigState fs) (before : ConfigParams)
      → get_elem? args i ≡ some c
      → IsTyped
          ((start.millis + boot_menu_timeout) % 2 ^ 32)
          (record { millis = m; text = c.cmd_prefix ++ text })
      → n < 2 ^ 32
      → is_timed_out n ((m + boot_menu_timeout) % 2 ^ 32) ≡ false
      → check_config (set_by c text s.params) ≡ true
      → (after : ConfigState fs) × (handle_boot_up_commands fs reset_callback
            ((start
                ∷ rounds_of
                    (record { millis = m; text = c.cmd_prefix ++ text } ∷ [])
                    (rounds_of (ok_at n ∷ []) rest))
              ∷ more)
            s
          ≡ done after)
        × (after.params ≡ sealed_params (set_by c text s.params))
        × (read fs (record after { params = before }) ≡ after)
  unfolding handle_boot_up_commands
  handle_boot_up_commands-setting law i c text start m n rest more s before e t small early
        checked =
      let line : Line = record { millis = m; text = c.cmd_prefix ++ text } in
      let s' : ConfigState fs = record s { params = set_by c text s.params; needs_commit = true } in
      (
        commit fs false s',
        rw
            (show_boot_menu-session fs reset_callback start (line ∷ []) (ok_at n) rest s
              ((t, not_ok i c text e), tt)
              (ok-IsTyped n ((m + boot_menu_timeout) % 2 ^ 32) small early)
              (ok_is_ok fs reset_callback n) (omega arith))
            (rw (ap (λ (r : Bool × ConfigState fs). r.1) (exec_line-prefix i c text s e))
              (rw checked refl)),
        ap (λ (x : ConfigState fs). x.params) (commit_writes fs false s' refl),
        read-commit fs law false s' before refl,
      )
