-- ===== src/Identity/Tests.antt =====
-- A node that is started twice: the theorems of Config and Identity.
use peernet_core.Prelude.{◌≡◌, refl, [], ◌∷◌, drop, none, some, arith}
use peernet_core.Prelude.Int.{pos}
use peernet_core.Fixtures.{toy_crypto}
use peernet_core.Text.{codes}
use peernet_core.Text.Address.Length.{bytes-zeros}
use peernet_core.Config.{Config, Yaml, Settings, missing, load_config, save_config}
use peernet_core.Identity.{init_peer_id}
use peernet_core.Identity.Laws.{with_new_key, restart_lem}

-- Only the private key is written, behind a mark.
abbrev pub toy_yaml : Yaml
toy_yaml = record {
  unmarshal = λ bytes config. (none, record config { private_key = drop 1 bytes });
  marshal = λ config. some (1 ∷ config.private_key);
}

abbrev plain : Config
plain = record {
  log_file = [];
  listen = [];
  listen_workers = pos 0;
  private_key = [];
  seed_list = [];
}

abbrev pub fresh : Settings
fresh = record {
  config = plain;
  config_file = codes "Config.yaml";
  files = λ path. missing;
  write_error = λ path. none;
}

abbrev pub keyed : Settings
keyed = record fresh { config = record plain { private_key = codes "0a" } }

abbrev restarted : Settings
restarted = record fresh { files = (save_config toy_yaml [] keyed).files }

abbrev first_saved : Config
first_saved = with_new_key toy_crypto toy_yaml [] 5 plain

abbrev later : Settings
later = record fresh {
  files = (save_config toy_yaml [] (record fresh { config = first_saved })).files;
}

-- The first start has key 5, every later one key 6.
restart_lem_example :
    (s₁ : Settings) × (init_peer_id toy_crypto toy_yaml [] (some 5) fresh ≡ some ((5, 5), s₁))
    × (later.files ≡ s₁.files
        → let (_, s₂) = load_config toy_yaml [] (codes "Config.yaml") later in
          init_peer_id toy_crypto toy_yaml [] (some 9) s₂ ≡ some ((6, 6), s₂))
restart_lem_example =
    restart_lem toy_crypto toy_yaml [] fresh later 5 (some 9) (1 ∷ first_saved.private_key) refl
      (omega arith, bytes-zeros 32) refl (omega arith) refl refl
