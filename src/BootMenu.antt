-- ===== src/BootMenu.antt =====
-- nodes/SodaqOneDevice/BootMenu.cpp: the line editor of the boot menu, and what becomes of a line.
-- The serial stream and `millis()` are libraries: each round of the editor's loop is given the time
-- and the character that waits, if any. What is echoed and shown is left out.
pub mod Typing
pub mod Loop
use docker_applications.Common.{
  ℕ, zero, suc, ◌+◌, ◌-◌, ◌*◌, ◌%◌, ◌^◌, Bool, true, false, not, ◌&&◌, ◌||◌, Option, none, some,
  List, [], ◌∷◌, ◌++◌, length, take, leb, ltb, ◌==◌, if◌then◌else◌,
}
use docker_applications.Command.{Command, exec_command}
use docker_applications.Command.Text.{starts_with_no_case}
use docker_applications.Config.{FlashStorage, ConfigState, commit}
use docker_applications.Config.Args.{exec_config_command}
use docker_applications.Tracker.Transmit.{Run, done, out_of_fuel}

-- `(long)(millis() - ts) >= 0`
unfoldable pub is_timed_out : ℕ → ℕ → Bool
is_timed_out millis ts = ltb ((millis + 2 ^ 32 - ts) % 2 ^ 32) (2 ^ 31)

abbrev pub boot_menu_timeout : ℕ
boot_menu_timeout = 30 * 1000

-- One round: the time, and the character that `peek` and `read` return, none for -1.
pub record Poll : Type 0 where
  pub millis : ℕ
  pub input : Option ℕ

-- The local variables of `readLine`; of the array, the characters before `len`.
pub record Editor : Type 0 where
  pub line : List ℕ
  pub seen_cr : Bool
  pub ts_wait_lf : ℕ
  pub ts_max : ℕ

-- The result: the line, or none where the time is up (-1), the new `ts_max`, and the rounds that
-- are left, with the character that was not read.
pub record Read : Type 0 where
  pub text : Option (List ℕ)
  pub ts_max : ℕ
  pub rest : List Poll

-- The test after a carriage return.
abbrev pub ends_line : Poll → ℕ → Bool
ends_line p ts_wait_lf = elim p.input [
  | none ↦ is_timed_out p.millis ts_wait_lf
  | some c ↦ not (c == 10)
]

abbrev pub erase : List ℕ → List ℕ
erase line = take (length line - 1) line

-- A normal character is stored if there is room and it can be shown.
abbrev pub stored : ℕ → ℕ → List ℕ → List ℕ
stored size c line =
    if ltb (length line) (size - 1) && (leb 0x20 c && ltb c 0x7F) then line ++ (c ∷ []) else line

-- What a character other than a line feed does to the editor.
unfoldable pub edit : ℕ → ℕ → ℕ → Editor → Editor
edit size millis c e = record {
  line =
      if c == 13
      then e.line
      else if c == 8 || c == 0x7F
      then erase e.line
      else stored size c e.line;
  seen_cr = c == 13;
  ts_wait_lf = if c == 13 then (millis + 50) % 2 ^ 32 else e.ts_wait_lf;
  ts_max = (millis + boot_menu_timeout) % 2 ^ 32;
}

-- The rest of a round: nothing or a NUL byte is ignored, a line feed ends the line. `again` are the
-- rounds that follow.
abbrev pub on_input : ℕ → ℕ → (Editor → Run Read) → List Poll → Editor → Option ℕ → Run Read
on_input size millis again rest e none = again e
on_input size millis again rest e (some c) =
    if c == 0
    then again e
    else if c == 10
    then done
        (record { text = some e.line; ts_max = (millis + boot_menu_timeout) % 2 ^ 32; rest = rest })
    else again (edit size millis c e)

unfoldable pub read_line : ℕ → List Poll → Editor → Run Read
unfolding is_timed_out edit
read_line size [] e = out_of_fuel
read_line size (p ∷ ps) e =
    if is_timed_out p.millis e.ts_max
    then done (record { text = none; ts_max = e.ts_max; rest = p ∷ ps })
    else if e.seen_cr && ends_line p e.ts_wait_lf
    then done (record { text = some e.line; ts_max = e.ts_max; rest = p ∷ ps })
    else on_input size p.millis (λ e'. read_line size ps e') ps e p.input

abbrev pub start_editor : ℕ → Editor
start_editor ts_max = record { line = []; seen_cr = false; ts_wait_lf = 0; ts_max = ts_max }

module _ (fs : FlashStorage) (reset_callback : Option (ConfigState fs → ConfigState fs)) where
  abbrev pub reset_dev_addr_or_eui_to_hw_eui : List ℕ → ConfigState fs → ConfigState fs
  reset_dev_addr_or_eui_to_hw_eui line s = elim reset_callback [
    | none ↦ s
    | some callback ↦ callback s
  ]

  abbrev pub commit_settings : List ℕ → ConfigState fs → ConfigState fs
  commit_settings line s = commit fs true s

  abbrev pub menu_args : List (Command (ConfigState fs))
  menu_args =
      record {
        cmd_prefix = b'E' ∷ b'U' ∷ b'I' ∷ [];
        exec_func = some reset_dev_addr_or_eui_to_hw_eui;
      }
      ∷ record { cmd_prefix = b'C' ∷ b'S' ∷ []; exec_func = some commit_settings }
      ∷ []

  -- `strcasecmp(buffer, "ok") == 0`
  abbrev pub is_ok : List ℕ → Bool
  is_ok line = length line == 2 && starts_with_no_case line (b'o' ∷ b'k' ∷ [])

  -- A line that is neither empty nor "ok": whether it was a command, and the configuration after it.
  unfoldable pub exec_line : List ℕ → ConfigState fs → Bool × ConfigState fs
  unfolding exec_command exec_config_command
  exec_line line s =
      let (own, s') = exec_command menu_args line s in
      if own then (true, s') else exec_config_command fs line s'
