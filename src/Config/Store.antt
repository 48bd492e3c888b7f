-- ===== src/Config/Store.antt =====
-- `ConfigParams::commit`, `read` and `reset`: what survives in flash.
use docker_applications.Common.{
  ℕ, ◌≡◌, refl, ◌≢◌, ◌⊎◌, inl, inr, Bool, true, false, ◌||◌, none, ◌==◌, arith, Bool-cases, eq→==,
  ne→==,
}
use docker_applications.Config.{
  ConfigParams, image, default_header, FlashStorage, with_defaults, call_reset_callback,
  check_config, ConfigState, reset, read, commit,
}
use docker_applications.Config.Crc.{crc16ccitt}

-- The parameters as `commit` stores them: with the header and their checksum.
abbrev pub sealed_params : ConfigParams → ConfigParams
sealed_params p = record p {
  header = default_header;
  crc16 = crc16ccitt (image (record p { header = default_header }));
}

module _ (fs : FlashStorage) where
  open fs use {Flash, read_flash, write_flash}

  -- A commit that is forced or needed writes the sealed parameters; after that none is needed.
  pub commit_writes :
      (forced : Bool) (s : ConfigState fs)
      → (forced || s.needs_commit) ≡ true
      → commit fs forced s ≡ record s {
        params = sealed_params s.params;
        flash = write_flash (sealed_params s.params) s.flash;
        needs_commit = false;
      }
  unfolding commit
  commit_writes forced s h = ground arith

  -- Any other commit does nothing; and so does a second unforced one.
  pub commit_skips : (s : ConfigState fs) → s.needs_commit ≡ false → commit fs false s ≡ s
  unfolding commit
  commit_skips s h = ground arith

  pub commit-commit :
      (forced : Bool) (s : ConfigState fs)
      → commit fs false (commit fs forced s) ≡ commit fs forced s
  unfolding commit
  commit-commit forced s = ground arith

  read_keeps :
      (s : ConfigState fs) (p : ConfigParams)
      → read_flash s.flash ≡ sealed_params p
      → read fs s ≡ record s { params = sealed_params p }
  unfolding read image
  read_keeps s p h = let c : ℕ = crc16ccitt (image (sealed_params p)) in rw (h, eq→== c c refl)

  -- With a flash that reads back what was written, what a forced or needed commit stored is what
  -- the next start reads, whatever `params` held before: no parameter is lost and nothing is reset.
  pub read-commit :
      ((p : ConfigParams) (f : Flash) → read_flash (write_flash p f) ≡ p)
      → (forced : Bool) (s : ConfigState fs) (before : ConfigParams)
      → (forced || s.needs_commit) ≡ true
      → read fs (record (commit fs forced s) { params = before }) ≡ commit fs forced s
  read-commit law forced s before h = rw (commit_writes forced s h) (
      read_keeps
        (record s {
          params = before;
          flash = write_flash (sealed_params s.params) s.flash;
          needs_commit = false;
        })
        s.params (law (sealed_params s.params) s.flash))

  -- Flash contents with another header or a wrong checksum are replaced by the defaults, which
  -- then wait for a commit.
  read_resets :
      (s : ConfigState fs)
      → (((read_flash s.flash).header ≢ default_header)
          ⊎ ((read_flash s.flash).crc16 ≢ crc16ccitt (image (read_flash s.flash))))
      → read fs s ≡ record s {
        params = call_reset_callback s.config_reset_callback (with_defaults (read_flash s.flash));
        needs_commit = true;
      }
  unfolding read
  read_resets s (inl h) = rw (ne→== (read_flash s.flash).header default_header h)
  read_resets s (inr h) =
      rw (ne→== (read_flash s.flash).crc16 (crc16ccitt (image (read_flash s.flash))) h)
        (elim (Bool-cases ((read_flash s.flash).header == default_header)) [
          | inl e ↦ rw e
          | inr e ↦ rw e
        ])

  -- Without a callback the defaults pass `checkConfig`.
  pub check_config-reset :
      (s : ConfigState fs)
      → s.config_reset_callback ≡ none
      → check_config (reset fs s).params ≡ true
  unfolding reset check_config
  check_config-reset s h = rw h
