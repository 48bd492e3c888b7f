-- ===== src/BootMenu/Loop/Saved.antt =====
-- What is in flash when the boot menu ends: a change of the parameters is saved, unless it is that of
-- the command "EUI".
use docker_applications.Common.{
  ℕ, ◌+◌, ◌%◌, ◌^◌, ◌<◌, ◌≡◌, refl, ap, ◌∙◌, Bool, true, false, not, ◌&&◌, ◌||◌, Option, none, some,
  List, [], ◌∷◌, length, Bool-cases, inl, inr, arith,
}
use docker_applications.BootMenu.{
  is_timed_out, Poll, boot_menu_timeout, menu_args, reset_dev_addr_or_eui_to_hw_eui, is_ok,
  exec_line,
}
use docker_applications.BootMenu.Loop.{handle_boot_up_commands}
use docker_applications.BootMenu.Loop.Session.{
  Line, rounds_of, IsTyped, run_lines, AreTyped, ts_max_after, show_boot_menu-session,
}
use docker_applications.Command.{find_command, find_from, exec_func_of, exec_command}
use docker_applications.Command.Text.{starts_with_no_case}
use docker_applications.Command.Keeps.{exec_command-keeps, exec_command_unknown}
use docker_applications.Config.{ConfigParams, FlashStorage, ConfigState, read, commit, check_config}
use docker_applications.Config.Args.{args, exec_config_command}
use docker_applications.Config.Store.{read-commit, commit_skips}
use docker_applications.Tracker.Transmit.{done}

abbrev pub eui_at : ℕ → Line
eui_at m = record { millis = m; text = b'E' ∷ b'U' ∷ b'I' ∷ [] }

abbrev pub ok_at : ℕ → Line
ok_at m = record { millis = m; text = b'o' ∷ b'k' ∷ [] }

eui-IsTyped :
    (m ts_max : ℕ) → m < 2 ^ 32 → is_timed_out m ts_max ≡ false → IsTyped ts_max (eui_at m)
eui-IsTyped m ts_max small early = record {
  small = small;
  in_time = early;
  shown =
      ((omega arith, omega arith), ((omega arith, omega arith), ((omega arith, omega arith), tt)));
  not_empty = omega arith;
  room = omega arith;
}

pub ok-IsTyped :
    (m ts_max : ℕ) → m < 2 ^ 32 → is_timed_out m ts_max ≡ false → IsTyped ts_max (ok_at m)
ok-IsTyped m ts_max small early = record {
  small = small;
  in_time = early;
  shown = ((omega arith, omega arith), ((omega arith, omega arith), tt));
  not_empty = omega arith;
  room = omega arith;
}

module _ (fs : FlashStorage) where
  open fs use {Flash, read_flash, write_flash}

  -- If no commit is needed, the next start reads the parameters as they are.
  abbrev pub IsSaved : ConfigState fs → Type 0
  IsSaved s = s.needs_commit ≡ false → read fs s ≡ s

  read_again :
      (s : ConfigState fs) (before : ConfigParams)
      → read fs (record s { params = before }) ≡ read fs s
  unfolding read
  read_again s before = refl

  module _ (law : (p : ConfigParams) (f : Flash) → read_flash (write_flash p f) ≡ p) where
    read_skipped :
        (forced : Bool) (s : ConfigState fs)
        → IsSaved s
        → (forced || s.needs_commit) ≡ false
        → read fs (commit fs forced s) ≡ commit fs forced s
    read_skipped true s saved h = absurd (ground arith)
    read_skipped false s saved h = rw (commit_skips fs s h) (saved h)

    -- After any commit of a state in which a change asks for one, the next start reads what is there.
    read-commit_saved :
        (forced : Bool) (s : ConfigState fs)
        → IsSaved s
        → read fs (commit fs forced s) ≡ commit fs forced s
    read-commit_saved forced s saved = elim (Bool-cases (forced || s.needs_commit)) [
      | inl writes ↦ read-commit fs law forced s (commit fs forced s).params writes
      | inr skips ↦ read_skipped forced s saved skips
    ]

    exec_config_command-IsSaved :
        (line : List ℕ) (s : ConfigState fs) → IsSaved s → IsSaved (exec_config_command fs line s).1
    unfolding exec_config_command
    exec_config_command-IsSaved line s saved =
        elim (Bool-cases (exec_command args line s.params).0) [
          | inl known ↦ rw known (λ h. absurd (ground arith))
          | inr unknown ↦ rw (unknown, exec_command_unknown args line s.params unknown) saved
        ]

    commit-IsSaved : (forced : Bool) (s : ConfigState fs) → IsSaved s → IsSaved (commit fs forced s)
    commit-IsSaved forced s saved h = read-commit_saved forced s saved

  -- What the callback of the command "EUI" would have to do.
  abbrev pub CallbackSaves : Option (ConfigState fs → ConfigState fs) → Type 0
  CallbackSaves none = Unit
  CallbackSaves (some callback) = (s : ConfigState fs) → IsSaved s → IsSaved (callback s)

  callback-saves :
      (reset_callback : Option (ConfigState fs → ConfigState fs)) (line : List ℕ)
      (s : ConfigState fs)
      → CallbackSaves reset_callback
      → IsSaved s
      → IsSaved (reset_dev_addr_or_eui_to_hw_eui fs reset_callback line s)
  callback-saves none line s keeps saved = saved
  callback-saves (some callback) line s keeps saved = keeps s saved

  module _ (law : (p : ConfigParams) (f : Flash) → read_flash (write_flash p f) ≡ p)
      (reset_callback : Option (ConfigState fs → ConfigState fs))
      (keeps : CallbackSaves reset_callback) where
    pub exec_line-IsSaved :
        (line : List ℕ) (s : ConfigState fs)
        → IsSaved s
        → IsSaved (exec_line fs reset_callback line s).1
    unfolding exec_line
    exec_line-IsSaved line s saved =
        let own =
          exec_command-keeps IsSaved (menu_args fs reset_callback) line s
            (
              (λ rest t h. callback-saves reset_callback rest t keeps h),
              ((λ rest t h. commit-IsSaved law true t h), tt),
            )
            saved in
        elim (Bool-cases (exec_command (menu_args fs reset_callback) line s).0) [
          | inl known ↦ rw known own
          | inr unknown ↦ rw unknown (exec_config_command-IsSaved law line _ own)
        ]

    run_lines-IsSaved :
        (ls : List Line) (s : ConfigState fs)
        → IsSaved s
        → IsSaved (run_lines fs reset_callback ls s)
    run_lines-IsSaved [] s saved = saved
    run_lines-IsSaved (l ∷ ls) s saved =
        run_lines-IsSaved ls (exec_line fs reset_callback l.text s).1
          (exec_line-IsSaved l.text s saved)

    check_config-commit :
        (forced : Bool) (s : ConfigState fs)
        → check_config (commit fs forced s).params ≡ check_config s.params
    unfolding commit check_config
    check_config-commit forced s = elim (Bool-cases (not forced && not s.needs_commit)) [
      | inl skips ↦ rw skips refl
      | inr writes ↦ rw writes refl
    ]

    -- With a flash that reads back what was written, a callback of "EUI" that asks for a commit or
    -- none, and a configuration that is saved or waits for a commit: a session of the boot menu as
    -- in `show_boot_menu-session`, after which the configuration is in range, ends the start-up. The
    -- configuration is then the one that the commands give, it is in range, and the next start reads
    -- it, whatever `params` holds before.
    pub handle_boot_up_commands-session :
        (start : Poll) (ls : List Line) (ok : Line) (rest : List Poll) (more : List (List Poll))
        (s : ConfigState fs)
        → (before : ConfigParams) → IsSaved s
        → AreTyped fs reset_callback ((start.millis + boot_menu_timeout) % 2 ^ 32) ls
        → IsTyped
            (ts_max_after fs reset_callback ((start.millis + boot_menu_timeout) % 2 ^ 32) ls)
            ok
        → is_ok fs reset_callback ok.text ≡ true
        → length ls < 250
        → check_config (run_lines fs reset_callback ls s).params ≡ true
        → (after : ConfigState fs) × (handle_boot_up_commands fs reset_callback
              ((start ∷ rounds_of ls (rounds_of (ok ∷ []) rest)) ∷ more)
              s
            ≡ done after)
          × (after ≡ commit fs false (run_lines fs reset_callback ls s))
          × (check_config after.params ≡ true)
          × (read fs (record after { params = before }) ≡ after)
    unfolding handle_boot_up_commands
    handle_boot_up_commands-session start ls ok rest more s before saved ts t e h checked =
        let s' = run_lines fs reset_callback ls s in
        (
          commit fs false s',
          rw (show_boot_menu-session fs reset_callback start ls ok rest s ts t e h)
              (rw checked refl),
          refl,
          check_config-commit false s' ∙ checked,
          read_again (commit fs false s') before
              ∙ read-commit_saved law false s' (run_lines-IsSaved ls s saved),
        )

  pub ok_is_ok :
      (reset_callback : Option (ConfigState fs → ConfigState fs)) (m : ℕ)
      → is_ok fs reset_callback (ok_at m).text ≡ true
  unfolding starts_with_no_case
  ok_is_ok reset_callback m = refl

  eui_not_ok :
      (reset_callback : Option (ConfigState fs → ConfigState fs)) (m : ℕ)
      → is_ok fs reset_callback (eui_at m).text ≡ false
  eui_not_ok reset_callback m = refl

  run_lines-eui :
      (callback : ConfigState fs → ConfigState fs) (m : ℕ) (s : ConfigState fs)
      → run_lines fs (some callback) (eui_at m ∷ []) s ≡ callback s
  unfolding exec_line exec_command find_command find_from starts_with_no_case exec_func_of
  run_lines-eui callback m s = refl

  -- What the command "EUI" sets is not saved when the start-up ends. With a flash that reads back what
  -- was written, a callback that changes the parameters only, as `setDevAddrOrEUItoHWEUI` does, a
  -- configuration that is saved and needs no commit, and "EUI" and then "ok" typed in time: the
  -- start-up ends with the changed parameters, if they are in range, and flash holds those before the
  -- change, which a start reads that comes before another commit. A forced commit of the changed
  -- configuration, as that after a delivered message, saves the change.
  pub eui_unsaved :
      ((p : ConfigParams) (f : Flash) → read_flash (write_flash p f) ≡ p)
      → (change : ConfigParams → ConfigParams) (start : Poll) (m n : ℕ) (rest : List Poll)
      → (more : List (List Poll)) (s : ConfigState fs) (before : ConfigParams)
      → s.needs_commit ≡ false
      → read fs s ≡ s
      → m < 2 ^ 32
      → n < 2 ^ 32
      → is_timed_out m ((start.millis + boot_menu_timeout) % 2 ^ 32) ≡ false
      → is_timed_out n ((m + boot_menu_timeout) % 2 ^ 32) ≡ false
      → check_config (change s.params) ≡ true
      → (handle_boot_up_commands fs
            (some (λ t. record t { params = change t.params }))
            ((start ∷ rounds_of (eui_at m ∷ []) (rounds_of (ok_at n ∷ []) rest)) ∷ more)
            s
          ≡ done (record s { params = change s.params }))
        × (read fs (record s { params = change s.params }) ≡ s)
        × (read fs
              (record (commit fs true (record s { params = change s.params })) { params = before })
            ≡ commit fs true (record s { params = change s.params }))
  unfolding handle_boot_up_commands
  eui_unsaved law change start m n rest more s before clean saved small_m small_n early_m early_n
        checked =
      let callback : ConfigState fs → ConfigState fs = λ t. record t { params = change t.params } in
      let typed_eui = eui-IsTyped m ((start.millis + boot_menu_timeout) % 2 ^ 32) small_m early_m in
      let typed_ok = ok-IsTyped n ((m + boot_menu_timeout) % 2 ^ 32) small_n early_n in
      (
        rw
            (show_boot_menu-session fs (some callback) start (eui_at m ∷ []) (ok_at n) rest s
              ((typed_eui, eui_not_ok (some callback) m), tt) typed_ok (ok_is_ok (some callback) n)
              (omega arith))
            (rw (run_lines-eui callback m s) (rw checked (ap done (commit_skips fs _ clean)))),
        read_again s (change s.params) ∙ saved,
        read-commit fs law true (record s { params = change s.params }) before refl,
      )
