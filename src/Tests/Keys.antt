-- ===== src/Tests/Keys.antt =====
-- A key of full length.
use docker_applications.Common.{ℕ, ◌+◌, ◌≡◌, refl, true, none, [], ◌∷◌, ◌++◌, replicate}
use docker_applications.Config.{ConfigParams}
use docker_applications.Tracker.Hex.{isxdigit}
use docker_applications.Tracker.InitLora.{LoRaDriver, Keys, init_lora}
use docker_applications.Tracker.InitLora.FullKey.{init_lora_overflow}
use docker_applications.Tests.Data.{morning}

-- A module that counts the calls of the driver.
abbrev counting_calls : LoRaDriver
counting_calls = record {
  State = ℕ;
  init_ota = λ dev app key n. (true, n + 1);
  init_abp = λ dev app key n. (true, n + 1);
  set_up_cntr = λ c n. n + 1;
  set_down_cntr = λ c n. n + 1;
}

-- Sixteen digits, of both cases.
abbrev over_the_air : ConfigParams
over_the_air = record morning {
  is_otaa_enabled = 1;
  dev_addr_or_eui = replicate 8 b'a' ++ (replicate 8 b'B' ++ (0 ∷ []));
}

abbrev on_stack : Keys
on_stack = record { dev = replicate 8 0; app = replicate 8 0; key = replicate 16 0 }

init_lora_overflow_example : init_lora counting_calls over_the_air on_stack 0 ≡ none
unfolding isxdigit
init_lora_overflow_example =
    init_lora_overflow counting_calls over_the_air on_stack 0
      (
        refl,
        refl,
        (
          refl,
          refl,
          (refl, refl, (refl, refl, (refl, refl, (refl, refl, (refl, refl, (refl, refl, tt)))))),
        ),
      )
      refl
