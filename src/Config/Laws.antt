-- ===== src/Config/Laws.antt =====
-- Config.go: what the status of `LoadConfig` means.
use peernet_core.Prelude.{
  ℕ, ◌≤◌, ◌≡◌, ◌↔◌, refl, ap, ◌∙◌, true, false, [], ◌∷◌, Option, none, some, String, length, ◌==◌,
  arith,
}
use peernet_core.Ip.{Bytes}
use peernet_core.Text.{Text}
use peernet_core.Config.{
  Config, Yaml, File, stored, Settings, Source, failed, content, same_path, config_source,
  parse_config, load_config, put_file, write_config, save_config,
}

pub same_path_refl : (p : Text) → same_path p p ≡ true
unfolding same_path
same_path_refl [] = refl
same_path_refl (x ∷ p) = ground (arith, same_path_refl p)

module _ (yaml : Yaml) (default_config : Bytes) where
  -- What `LoadConfig` leaves behind, and what its status and error say: 3 is success, 2 an error of
  -- the parser, 1 and 0 are errors before that.
  pub record Loaded (filename : Text) (s : Settings) (status : ℕ) (error : Option String)
      (s' : Settings) : Type 0 where
    pub file_kept : s'.config_file ≡ filename
    pub files_kept : s'.files ≡ s.files
    pub success : (status ≡ 3) ↔ (error ≡ none)
    pub early : status ≤ 1 → s'.config ≡ s.config
    pub late :
        2 ≤ status
        → (bytes : Bytes) × (config_source yaml default_config (s.files filename) ≡ content bytes)
          × (yaml.unmarshal bytes s.config ≡ (error, s'.config))
    pub known : status ≤ 3

  -- The status of an error of the parser.
  parsed_status : Option String → ℕ × Option String
  parsed_status error = elim error [ some e ↦ (2, some e) | none ↦ (3, none) ]

  IsLow : Source → Type 0
  IsLow source = (status : ℕ) (e : String) → source ≡ failed status e → status ≤ 1

  put_found :
      (s : Settings) (bytes : Bytes)
      → (put_file yaml default_config none bytes s).files s.config_file ≡ stored bytes
  unfolding put_file
  put_found s bytes = rw (same_path_refl s.config_file) refl

  source_stored :
      (bytes : Bytes)
      → 1 ≤ length bytes
      → config_source yaml default_config (stored bytes) ≡ content bytes
  unfolding config_source
  source_stored bytes filled =
      let full : (length bytes == 0) ≡ false = ground (arith, filled) in rw full refl

  pub load-save :
      (s fresh : Settings) (bytes : Bytes)
      → yaml.marshal s.config ≡ some bytes
      → 1 ≤ length bytes
      → s.write_error s.config_file ≡ none
      → fresh.files ≡ (save_config yaml default_config s).files
      → yaml.unmarshal bytes fresh.config ≡ (none, s.config)
      → load_config yaml default_config s.config_file fresh
        ≡ ((3, none), record fresh { config = s.config; config_file = s.config_file })
  unfolding load_config save_config write_config parse_config parsed_status
  load-save s fresh bytes marshalled filled written same back =
      let saved : save_config yaml default_config s ≡ put_file yaml default_config none bytes s =
        ap (λ o. write_config yaml default_config o s) marshalled
        ∙ ap (λ e. put_file yaml default_config e bytes s) written in
      let found : fresh.files s.config_file ≡ stored bytes =
        ap (λ (f : Text → File). f s.config_file) same
        ∙ ap (λ (z : Settings). z.files s.config_file) saved
        ∙ put_found s bytes in
      let opened = record fresh { config_file = s.config_file } in
      ap (λ f. parse_config yaml default_config (config_source yaml default_config f) opened) found
      ∙ ap (λ z. parse_config yaml default_config z opened) (source_stored bytes filled)
      ∙ ap (λ (r : Option String × Config). (parsed_status r.0, record opened { config = r.1 }))
          back
