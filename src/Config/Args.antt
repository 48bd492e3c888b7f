-- ===== src/Config/Args.antt =====
-- The table `args` of nodes/SodaqOneDevice/Config.cpp and `ConfigParams::execCommand`.
use Prim.Native.String.{String}
use Prim.Native.Char.{code}
use docker_applications.Common.{
  ℕ, ◌≡◌, refl, Bool, true, Option, some, List, [], ◌∷◌, if◌then◌else◌,
}
use docker_applications.Command.{
  Cell, Command, exec_command, set_string, set_uint8, set_uint16, set_uint32,
}
use docker_applications.Command.Find.{prefix_free}
use docker_applications.Config.{ConfigParams, FlashStorage, ConfigState}

abbrev pub codes : String → List ℕ
codes String.[] = []
codes (String.◌∷◌ c s) = code c ∷ codes s

abbrev numeric :
    String
    → (Option (Cell ConfigParams ℕ) → List ℕ → ConfigParams → ConfigParams)
    → (ConfigParams → ℕ)
    → (ℕ → ConfigParams → ConfigParams)
    → Command ConfigParams
numeric cmd_prefix set get put = record {
  cmd_prefix = codes cmd_prefix;
  exec_func = some (set (some (record { get = get; put = put })));
}

abbrev textual :
    String
    → ℕ
    → (ConfigParams → List ℕ)
    → (List ℕ → ConfigParams → ConfigParams)
    → Command ConfigParams
textual cmd_prefix param_size get put = record {
  cmd_prefix = codes cmd_prefix;
  exec_func = some (set_string (some (record { get = get; put = put })) param_size);
}

-- The commands in the order of the table.
abbrev pub args : List (Command ConfigParams)
args =
    numeric "fi=" set_uint16 (λ p. p.default_fix_interval)
      (λ v p. record p { default_fix_interval = v })
    ∷ numeric "afi=" set_uint16 (λ p. p.alternative_fix_interval)
        (λ v p. record p { alternative_fix_interval = v })
    ∷ numeric "affh=" set_uint8 (λ p. p.alternative_fix_from_hours)
        (λ v p. record p { alternative_fix_from_hours = v })
    ∷ numeric "affm=" set_uint8 (λ p. p.alternative_fix_from_minutes)
        (λ v p. record p { alternative_fix_from_minutes = v })
    ∷ numeric "afth=" set_uint8 (λ p. p.alternative_fix_to_hours)
        (λ v p. record p { alternative_fix_to_hours = v })
    ∷ numeric "aftm=" set_uint8 (λ p. p.alternative_fix_to_minutes)
        (λ v p. record p { alternative_fix_to_minutes = v })
    ∷ numeric "gft=" set_uint16 (λ p. p.gps_fix_timeout) (λ v p. record p { gps_fix_timeout = v })
    ∷ numeric "otaa=" set_uint8 (λ p. p.is_otaa_enabled) (λ v p. record p { is_otaa_enabled = v })
    ∷ textual "dev=" 17 (λ p. p.dev_addr_or_eui) (λ v p. record p { dev_addr_or_eui = v })
    ∷ textual "app=" 33 (λ p. p.app_s_key_or_eui) (λ v p. record p { app_s_key_or_eui = v })
    ∷ textual "key=" 33 (λ p. p.nw_s_key_or_app_key) (λ v p. record p { nw_s_key_or_app_key = v })
    ∷ numeric "cof=" set_uint32 (λ p. p.charge_offset) (λ v p. record p { charge_offset = v })
    ∷ numeric "num=" set_uint8 (λ p. p.coordinate_upload_count)
        (λ v p. record p { coordinate_upload_count = v })
    ∷ numeric "rep=" set_uint8 (λ p. p.repeat_count) (λ v p. record p { repeat_count = v })
    ∷ numeric "fup=" set_uint32 (λ p. p.frame_up_count) (λ v p. record p { frame_up_count = v })
    ∷ numeric "fdw=" set_uint32 (λ p. p.frame_down_count) (λ v p. record p { frame_down_count = v })
    ∷ numeric "led=" set_uint8 (λ p. p.is_led_enabled) (λ v p. record p { is_led_enabled = v })
    ∷ numeric "gps=" set_uint8 (λ p. p.is_gps_enabled) (λ v p. record p { is_gps_enabled = v })
    ∷ numeric "ack=" set_uint8 (λ p. p.is_ack_enabled) (λ v p. record p { is_ack_enabled = v })
    ∷ numeric "dbg=" set_uint8 (λ p. p.is_dbg_enabled) (λ v p. record p { is_dbg_enabled = v })
    ∷ []

module _ (fs : FlashStorage) where
  -- A valid command asks for a commit.
  unfoldable pub exec_config_command : List ℕ → ConfigState fs → Bool × ConfigState fs
  unfolding exec_command
  exec_config_command line s =
      let (done, params) = exec_command args line s.params in
      (
        done,
        if done
            then record s { params = params; needs_commit = true }
            else record s { params = params },
      )

-- No line of the boot menu fits two commands of the table.
pub args-prefix_free : prefix_free args ≡ true
unfolding prefix_free
args-prefix_free = refl
