-- ===== src/BootMenu/Loop.antt =====
-- `showBootMenu` of nodes/SodaqOneDevice/BootMenu.cpp, and `handleBootUpCommands` of
-- nodes/SodaqOneDevice/SodaqOneDevice.ino, which shows the menu until the configuration is right.
-- Each round of the menu's loop takes one round of what is typed for its test of the time, and then
-- looks at those that follow it.
pub mod Session
pub mod Saved
pub mod Setting
pub mod Ends
use docker_applications.Common.{
  ℕ, zero, suc, ◌+◌, ◌%◌, ◌^◌, Bool, true, false, not, ◌||◌, Option, none, some, List, [], ◌∷◌,
  length, ltb, ◌==◌, if◌then◌else◌,
}
use docker_applications.BootMenu.{
  is_timed_out, boot_menu_timeout, Poll, Read, read_line, start_editor, is_ok, exec_line,
}
use docker_applications.Config.{FlashStorage, ConfigState, commit, check_config}
use docker_applications.Tracker.Transmit.{Run, done, fault, out_of_fuel}

-- `while (stream.available() && stream.peek() == 0) stream.read();`
unfoldable pub skip_nuls : List Poll → List Poll
skip_nuls [] = []
skip_nuls (p ∷ ps) = elim p.input [
  | none ↦ p ∷ ps
  | some zero ↦ skip_nuls ps
  | some (suc c) ↦ p ∷ ps
]

-- The variables of the loop that outlive a round.
pub record Menu : Type 0 where
  pub ts_max : ℕ
  pub need_prompt : Bool
  pub nr_prompts : ℕ

-- `char buffer[200 + 1]`
abbrev pub buffer_size : ℕ
buffer_size = 200 + 1

abbrev pub prompted : Menu → Menu
prompted v =
    if v.need_prompt then record v { need_prompt = false; nr_prompts = v.nr_prompts + 1 } else v

-- The time that `millis()` returns at the next round.
abbrev pub next_millis : List Poll → Option ℕ
next_millis [] = none
next_millis (p ∷ ps) = some p.millis

module _ (fs : FlashStorage) (reset_callback : Option (ConfigState fs → ConfigState fs)) where
  -- A line that is neither empty nor "ok". A command extends the time-out.
  abbrev pub after_command :
      (List Poll → Menu → ConfigState fs → Run (ConfigState fs))
      → Menu
      → List Poll
      → Bool × ConfigState fs
      → Run (ConfigState fs)
  after_command again v rest (false, s) = again rest v s
  after_command again v rest (true, s) = elim (next_millis rest) [
    | none ↦ out_of_fuel
    | some now ↦ again rest (record v { ts_max = (now + boot_menu_timeout) % 2 ^ 32 }) s
  ]

  -- The rest of a round, with the line that `readLine` returned. `again` are the rounds that follow.
  unfoldable pub on_line :
      (List Poll → Menu → ConfigState fs → Run (ConfigState fs))
      → Menu
      → ConfigState fs
      → Run Read
      → Run (ConfigState fs)
  unfolding exec_line
  on_line again v s fault = fault
  on_line again v s out_of_fuel = out_of_fuel
  on_line again v s (done r) = elim r.text [
    | none ↦ again r.rest (record v { ts_max = r.ts_max }) s
    | some line ↦
        let w : Menu = record v { ts_max = r.ts_max; need_prompt = true } in
        if length line == 0
        then again r.rest w s
        else if is_ok fs reset_callback line
        then done s
        else after_command again w r.rest (exec_line fs reset_callback line s)
  ]

  -- `if (stream.available()) size = readLine(…)`
  abbrev pub on_stream :
      (List Poll → Menu → ConfigState fs → Run (ConfigState fs))
      → Menu
      → ConfigState fs
      → List Poll
      → Run (ConfigState fs)
  on_stream again v s [] = out_of_fuel
  on_stream again v s (p ∷ ps) = elim p.input [
    | none ↦ again ps v s
    | some c ↦ on_line again v s (read_line buffer_size (p ∷ ps) (start_editor v.ts_max))
  ]

  unfoldable pub menu_loop : ℕ → List Poll → Menu → ConfigState fs → Run (ConfigState fs)
  unfolding on_line skip_nuls is_timed_out
  menu_loop zero ps v s = out_of_fuel
  menu_loop (suc fuel) [] v s = out_of_fuel
  menu_loop (suc fuel) (p ∷ ps) v s =
      if is_timed_out p.millis v.ts_max || not (ltb v.nr_prompts 250)
      then done s
      else on_stream (λ ps' v' s'. menu_loop fuel ps' v' s') (prompted v) s (skip_nuls ps)

  -- Every round of the menu takes a round of the list, so as much fuel is enough. The first gives
  -- the time at the start.
  unfoldable pub show_boot_menu : List Poll → ConfigState fs → Run (ConfigState fs)
  unfolding menu_loop
  show_boot_menu [] s = out_of_fuel
  show_boot_menu (p ∷ ps) s =
      menu_loop (length ps) ps
        (record {
          ts_max = (p.millis + boot_menu_timeout) % 2 ^ 32;
          need_prompt = true;
          nr_prompts = 0;
        })
        s

  -- What follows a run of the menu: `again` are the runs after it.
  abbrev pub until_checked :
      (ConfigState fs → Run (ConfigState fs)) → Run (ConfigState fs) → Run (ConfigState fs)
  until_checked again fault = fault
  until_checked again out_of_fuel = out_of_fuel
  until_checked again (done s) =
      if not (check_config s.params) then again s else done (commit fs false s)

  -- The loop of `handleBootUpCommands`, with what is typed in each run of the menu.
  unfoldable pub handle_boot_up_commands : List (List Poll) → ConfigState fs → Run (ConfigState fs)
  unfolding show_boot_menu
  handle_boot_up_commands [] s = out_of_fuel
  handle_boot_up_commands (typed ∷ more) s =
      until_checked (λ s'. handle_boot_up_commands more s') (show_boot_menu typed s)
