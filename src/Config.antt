-- ===== src/Config.antt =====
-- Config.go: the configuration, and the file that it is kept in.
pub mod Laws
use peernet_core.Prelude.{
  ℕ, Bool, true, false, List, [], ◌∷◌, Option, none, some, String, length, if◌then◌else◌, ◌==◌,
}
use peernet_core.Prelude.Int.{ℤ}
use peernet_core.Ip.{Bytes}
use peernet_core.Text.{Text}

-- `peerSeed`
pub record PeerSeed : Type 0 where
  pub public_key : Text
  pub address : List Text

-- The variable `config`.
pub record Config : Type 0 where
  pub log_file : Text
  pub listen : List Text
  pub listen_workers : ℤ
  pub private_key : Text
  pub seed_list : List PeerSeed

-- The library yaml.v3, which is not under the repository: `Unmarshal` into the configuration as it
-- is, which may have been changed when there is an error, and `Marshal`.
pub record Yaml : Type 0 where
  pub unmarshal : Bytes → Config → Option String × Config
  pub marshal : Config → Option Bytes

-- A path as `os.Stat` and `ioutil.ReadFile` find it: nothing there, an error of the one, an error
-- of the other with a size, or a file's content.
pub data File : Type 0 where
  missing : File
  denied : String → File
  unreadable : ℕ → String → File
  stored : Bytes → File

-- The variables `config` and `configFile`, the files, and the errors of `ioutil.WriteFile`.
pub record Settings : Type 0 where
  pub config : Config
  pub config_file : Text
  pub files : Text → File
  pub write_error : Text → Option String

-- What `LoadConfig` parses, or its status and error before that.
pub data Source : Type 0 where
  failed : ℕ → String → Source
  content : Bytes → Source

-- The comparison of two paths.
unfoldable pub same_path : Text → Text → Bool
same_path [] [] = true
same_path [] (y ∷ ys) = false
same_path (x ∷ xs) [] = false
same_path (x ∷ xs) (y ∷ ys) = if x == y then same_path xs ys else false

module _ (yaml : Yaml) (default_config : Bytes) where
  -- A missing or empty file stands for the configuration that is built in.
  unfoldable pub config_source : File → Source
  config_source missing = content default_config
  config_source (denied e) = failed 0 e
  config_source (unreadable size e) = if size == 0 then content default_config else failed 1 e
  config_source (stored bytes) = if length bytes == 0 then content default_config else content bytes

  -- The status and the error.
  unfoldable pub parse_config : Source → Settings → (ℕ × Option String) × Settings
  parse_config (failed status e) s = ((status, some e), s)
  parse_config (content bytes) s =
      let (error, config) = yaml.unmarshal bytes s.config in
      (elim error [ some e ↦ (2, some e) | none ↦ (3, none) ], record s { config = config })

  -- `LoadConfig`
  unfoldable pub load_config : Text → Settings → (ℕ × Option String) × Settings
  load_config filename s =
      parse_config (config_source (s.files filename)) (record s { config_file = filename })

  -- `saveConfig`, which only logs errors.
  unfoldable pub put_file : Option String → Bytes → Settings → Settings
  put_file (some _) bytes s = s
  put_file none bytes s = record s {
    files = λ path. if same_path path s.config_file then stored bytes else s.files path;
  }

  unfoldable pub write_config : Option Bytes → Settings → Settings
  write_config none s = s
  write_config (some bytes) s = put_file (s.write_error s.config_file) bytes s

  unfoldable pub save_config : Settings → Settings
  save_config s = write_config (yaml.marshal s.config) s
