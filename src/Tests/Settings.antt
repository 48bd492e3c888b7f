-- ===== src/Tests/Settings.antt =====
-- The configuration and the command table on concrete values.
use docker_applications.Common.{◌≡◌, refl, true, false}
use docker_applications.Config.{reset, read, commit, check_config}
use docker_applications.Config.Crc.{crc16ccitt}
use docker_applications.Config.Store.{read-commit, check_config-reset}
use docker_applications.Config.Args.{codes}
use docker_applications.Tests.Data.{flash_cell, erased, waiting}

-- The checksum of the text "123456789".
crc16ccitt_check : crc16ccitt (codes "123456789") ≡ 0x31C3
unfolding crc16ccitt
crc16ccitt_check = refl

read-commit_example :
    read flash_cell (record (commit flash_cell false waiting) { params = erased })
    ≡ commit flash_cell false waiting
read-commit_example = read-commit flash_cell (λ p f. refl) false waiting erased refl

check_config-reset_example : check_config (reset flash_cell waiting).params ≡ true
check_config-reset_example = check_config-reset flash_cell waiting refl
