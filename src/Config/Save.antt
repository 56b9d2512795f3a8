-- ===== src/Config/Save.antt =====
-- `Save` of config/config.go: the write through a temporary file and a rename.
use zeus_dns_cli.Base.{
  is_empty, Bool, Option, none, some, if◌then◌else◌, Text, text_eq, Result, ok, err,
}
use zeus_dns_cli.Config.{Config, default_file}

-- The calls of `Save` that can fail.
pub data SaveStep : Type 0 where
  make_dir encode create_temp write_temp close_temp chmod_temp rename_temp remove_temp : SaveStep

abbrev pub Files : Type 0
Files = Text → Option Text

abbrev pub set_file : Text → Option Text → Files → Files
set_file path content files q = if text_eq q path then content else files q

-- `fails` tells which calls fail, `encode_yaml` is `yaml.Marshal`, `tmp` the name that
-- `os.CreateTemp` picks, and `partial` what a failed write leaves in the file.
module _ (fails : SaveStep → Bool) (encode_yaml : Config → Option Text) (tmp partial : Text) where
  -- The deferred removal of the temporary file.
  unfoldable pub cleanup : Files → Files
  cleanup files = if fails remove_temp then files else set_file tmp none files

  -- `Save` from the write to the rename.
  unfoldable pub write_through : Text → Text → Files → Result SaveStep (Unit {0}) × Files
  write_through path text files =
      if fails write_temp
      then (err write_temp, cleanup (set_file tmp (some partial) files))
      else if fails close_temp
      then (err close_temp, cleanup (set_file tmp (some text) files))
      else if fails chmod_temp
      then (err chmod_temp, cleanup (set_file tmp (some text) files))
      else if fails rename_temp
      then (err rename_temp, cleanup (set_file tmp (some text) files))
      else (ok tt, set_file path (some text) (set_file tmp none files))

  -- `Save` behind the encoding.
  unfoldable pub save_encoded : Text → Option Text → Files → Result SaveStep (Unit {0}) × Files
  save_encoded path none files = (err encode, files)
  save_encoded path (some text) files =
      if fails create_temp then (err create_temp, files) else write_through path text files

  -- `Save` at a path that is not empty.
  unfoldable pub save_at : Text → Config → Files → Result SaveStep (Unit {0}) × Files
  save_at path c files =
      if fails make_dir then (err make_dir, files) else save_encoded path (encode_yaml c) files

  -- `Save`
  unfoldable pub save : Text → Config → Files → Result SaveStep (Unit {0}) × Files
  save path c files = save_at (if is_empty path then default_file else path) c files
