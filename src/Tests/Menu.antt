-- ===== src/Tests/Menu.antt =====
-- Sessions of the boot menu.
use docker_applications.Common.{◌≡◌, ◌++◌, refl, true, none, some, [], ◌∷◌, replicate, arith}
use docker_applications.BootMenu.{is_timed_out, Poll}
use docker_applications.BootMenu.Loop.{show_boot_menu, handle_boot_up_commands}
use docker_applications.BootMenu.Loop.Session.{
  Line, rounds_of, IsTyped, run_lines, show_boot_menu-session,
}
use docker_applications.BootMenu.Loop.Saved.{eui_at, ok_at, ok-IsTyped, ok_is_ok, eui_unsaved}
use docker_applications.BootMenu.Loop.Setting.{handle_boot_up_commands-setting}
use docker_applications.BootMenu.Loop.Ends.{silence, then_round, last_round, show_boot_menu-Ends}
use docker_applications.Command.{Command, set_uint16}
use docker_applications.Command.Text.{
  starts_with_no_case, strtoul, signed_value, skip_spaces, magnitude, digits_value,
}
use docker_applications.Config.{ConfigParams, ConfigState, read, commit, check_config}
use docker_applications.Config.Args.{codes}
use docker_applications.Config.Store.{sealed_params, read-commit}
use docker_applications.Tracker.Transmit.{done}
use docker_applications.Tests.Data.{flash_cell, committed, morning, erased}

abbrev at_start : Poll
at_start = record { millis = 1000; input = none }

-- "fi=5", and a line that is no command.
abbrev interval_line : Line
interval_line = record { millis = 2000; text = b'f' ∷ b'i' ∷ b'=' ∷ b'5' ∷ [] }

abbrev unknown_line : Line
unknown_line = record { millis = 9000; text = b'h' ∷ b'i' ∷ [] }

interval-IsTyped : IsTyped 31000 interval_line
unfolding is_timed_out
interval-IsTyped = record {
  small = omega arith;
  in_time = refl;
  shown = (
    (omega arith, omega arith),
    ((omega arith, omega arith), ((omega arith, omega arith), ((omega arith, omega arith), tt))),
  );
  not_empty = omega arith;
  room = omega arith;
}

unknown-IsTyped : IsTyped 32000 unknown_line
unfolding is_timed_out
unknown-IsTyped = record {
  small = omega arith;
  in_time = refl;
  shown = ((omega arith, omega arith), ((omega arith, omega arith), tt));
  not_empty = omega arith;
  room = omega arith;
}

show_boot_menu-session_example :
    show_boot_menu flash_cell none
      (at_start ∷ rounds_of (interval_line ∷ unknown_line ∷ []) (rounds_of (ok_at 9500 ∷ []) []))
      committed
    ≡ done (run_lines flash_cell none (interval_line ∷ unknown_line ∷ []) committed)
unfolding is_timed_out starts_with_no_case
show_boot_menu-session_example =
    show_boot_menu-session flash_cell none at_start (interval_line ∷ unknown_line ∷ []) (ok_at 9500)
      [] committed ((interval-IsTyped, refl), ((unknown-IsTyped, refl), tt))
      (ok-IsTyped 9500 39000 (omega arith) refl) (ok_is_ok flash_cell none 9500) (omega arith)

-- A line that is not ended, and then silence for 30 seconds.
show_boot_menu-Ends_example :
    (after : ConfigState flash_cell) × (show_boot_menu flash_cell none
        (at_start
          ∷ record { millis = 1500; input = none }
          ∷ record { millis = 1600; input = some b'f' }
          ∷ record { millis = 1700; input = none }
          ∷ last_round 31700
          ∷ last_round 31700
          ∷ [])
        committed
      ≡ done after)
unfolding is_timed_out
show_boot_menu-Ends_example =
    show_boot_menu-Ends 31700 flash_cell none at_start
      (record { millis = 1500; input = none }
        ∷ record { millis = 1600; input = some b'f' }
        ∷ record { millis = 1700; input = none }
        ∷ last_round 31700
        ∷ last_round 31700
        ∷ [])
      committed refl (then_round refl (then_round refl (silence refl)))

-- What `commit` leaves in flash.
abbrev stored : ConfigState flash_cell
stored = commit flash_cell true committed

stored_saved : read flash_cell stored ≡ stored
stored_saved = read-commit flash_cell (λ p f. refl) true committed stored.params refl

abbrev with_eui : ConfigParams → ConfigParams
with_eui p = record p { dev_addr_or_eui = replicate 16 b'A' ++ (0 ∷ []) }

eui_unsaved_example :
    (handle_boot_up_commands flash_cell
        (some (λ t. record t { params = with_eui t.params }))
        ((at_start ∷ rounds_of (eui_at 2000 ∷ []) (rounds_of (ok_at 3000 ∷ []) [])) ∷ [])
        stored
      ≡ done (record stored { params = with_eui stored.params }))
    × (read flash_cell (record stored { params = with_eui stored.params }) ≡ stored)
    × (read flash_cell
          (record (commit flash_cell true (record stored { params = with_eui stored.params })) {
            params = erased;
          })
        ≡ commit flash_cell true (record stored { params = with_eui stored.params }))
unfolding is_timed_out commit check_config
eui_unsaved_example =
    eui_unsaved flash_cell (λ p f. refl) with_eui at_start 2000 3000 [] [] stored erased refl
      stored_saved (omega arith) (omega arith) refl refl refl

abbrev gft : Command ConfigParams
gft = record {
  cmd_prefix = codes "gft=";
  exec_func = some (
      set_uint16 (
        some (record {
          get = λ p. p.gps_fix_timeout;
          put = λ v p. record p { gps_fix_timeout = v };
        })));
}

gft-IsTyped : IsTyped 31000 (record { millis = 2000; text = codes "gft=" ++ codes "90" })
unfolding is_timed_out
gft-IsTyped = record {
  small = omega arith;
  in_time = refl;
  shown = (
    (omega arith, omega arith),
    (
      (omega arith, omega arith),
      (
        (omega arith, omega arith),
        (
          (omega arith, omega arith),
          ((omega arith, omega arith), ((omega arith, omega arith), tt)),
        ),
      ),
    ),
  );
  not_empty = omega arith;
  room = omega arith;
}

-- "gft=90" and "ok".
handle_boot_up_commands-setting_example :
    (after : ConfigState flash_cell) × (handle_boot_up_commands flash_cell none
        ((at_start
            ∷ rounds_of
                (record { millis = 2000; text = codes "gft=" ++ codes "90" } ∷ [])
                (rounds_of (ok_at 3000 ∷ []) []))
          ∷ [])
        committed
      ≡ done after)
    × (after.params ≡ sealed_params (record morning { gps_fix_timeout = 90 }))
    × (read flash_cell (record after { params = erased }) ≡ after)
unfolding is_timed_out set_uint16 strtoul signed_value skip_spaces magnitude digits_value
    check_config
handle_boot_up_commands-setting_example =
    handle_boot_up_commands-setting flash_cell none (λ p f. refl) 6 gft (codes "90") at_start 2000
      3000 [] [] committed erased refl gft-IsTyped (omega arith) refl refl
