-- ===== src/Client/Config.antt =====
-- `TunnelConfig.load_all` of client/config.py. The values of YAML, what is read from a file, and
-- pydantic's validation are parameters.
use vpn_passthrough.Prelude.{
  String, string_eq, ◌==◌, ◌≡◌, refl, ap, ◌∙◌, Option, none, some, List, [], ◌∷◌, or_else,
  Bool-cases, eq_of_beq, arith, inl, inr,
}
use vpn_passthrough.Prelude.Dict.{Dict, lookup, insert, lookup-insert}
use vpn_passthrough.Client.Tunnels.{TunnelConfig}

-- `yaml.safe_load(f) or {}` gives none where it raises.
module _ {V : Type 0} (text : String → V) (read : String → Option (Dict String V))
    (validate : Dict String V → Option TunnelConfig) where
  -- What is validated for a file: its data with the file's stem as the name.
  abbrev pub with_name : String → Dict String V → Dict String V
  with_name name values = insert "name" (text name) values

  abbrev pub put_config :
      (Dict String TunnelConfig → Option (Dict String TunnelConfig))
      → String
      → Dict String TunnelConfig
      → Option TunnelConfig
      → Option (Dict String TunnelConfig)
  put_config go_on name configs none = none
  put_config go_on name configs (some config) = go_on (insert name config configs)

  abbrev pub validate_data : String → Option (Dict String V) → Option TunnelConfig
  validate_data name none = none
  validate_data name (some values) = validate (with_name name values)

  -- The loop over the files, given by their stems; none where a file raises.
  unfoldable pub load_from :
      List String → Dict String TunnelConfig → Option (Dict String TunnelConfig)
  load_from [] configs = some configs
  load_from (name ∷ names) configs =
      put_config (load_from names) name configs (validate_data name (read name))

  -- `files` are the sorted stems of the folder, none where it is no folder.
  unfoldable pub load_all : Option (List String) → Option (Dict String TunnelConfig)
  unfolding load_from
  load_all none = some []
  load_all (some files) = load_from files []

  abbrev Named : Dict String TunnelConfig → Type 0
  Named configs =
      (name : String) (config : TunnelConfig)
      → lookup name configs ≡ some config
      → config.name ≡ name

  module _
      (keeps_name : (name : String) (values : Dict String V) (config : TunnelConfig)
        → lookup "name" values ≡ some (text name)
        → validate values ≡ some config
        → config.name ≡ name) where
    validated-name :
        (name : String) (values : Option (Dict String V)) (config : TunnelConfig)
        → validate_data name values ≡ some config
        → config.name ≡ name
    validated-name name none config h = cc
    validated-name name (some values) config h =
        keeps_name name (with_name name values) config
          (lookup-insert "name" "name" (text name) values) h

    insert-Named :
        (name : String) (config : TunnelConfig) (configs : Dict String TunnelConfig)
        → config.name ≡ name
        → Named configs
        → Named (insert name config configs)
    insert-Named name config configs n h j other e = elim (Bool-cases (name == j)) [
      | inl same ↦ grind (arith, lookup-insert name j config configs, eq_of_beq name j same)
      | inr differs ↦ h j other (grind (arith, lookup-insert name j config configs))
    ]

    put_config-Named :
        (names : List String) (name : String) (configs loaded : Dict String TunnelConfig)
        (config : Option TunnelConfig)
        → ((after : Dict String TunnelConfig)
            → Named after
            → load_from names after ≡ some loaded
            → Named loaded)
        → ((c : TunnelConfig) → config ≡ some c → c.name ≡ name)
        → Named configs
        → put_config (load_from names) name configs config ≡ some loaded
        → Named loaded
    put_config-Named names name configs loaded none ih k h e = cc
    put_config-Named names name configs loaded (some config) ih k h e =
        ih (insert name config configs) (insert-Named name config configs (k config refl) h) e

    load_from-Named :
        (names : List String) (configs loaded : Dict String TunnelConfig)
        → Named configs
        → load_from names configs ≡ some loaded
        → Named loaded
    unfolding load_from
    load_from-Named [] configs loaded h e =
        let same : configs ≡ loaded = ap (λ o. or_else o []) e in
        λ name config q. h name config (ap (lookup name) same ∙ q)
    load_from-Named (name ∷ names) configs loaded h e =
        put_config-Named names name configs loaded (validate_data name (read name))
          (λ after. load_from-Named names after loaded) (validated-name name (read name)) h e

    -- Where the validation keeps the name, every configuration that is loaded is found under its own
    -- name, which is that of its file, whatever name the file gives.
    pub load_all-Named :
        (files : Option (List String)) (loaded : Dict String TunnelConfig) (name : String)
        (config : TunnelConfig)
        → load_all files ≡ some loaded
        → lookup name loaded ≡ some config
        → config.name ≡ name
    unfolding load_all load_from lookup
    load_all-Named none loaded name config e q =
        load_from-Named [] [] loaded (λ n c h. cc) e name config q
    load_all-Named (some files) loaded name config e q =
        load_from-Named files [] loaded (λ n c h. cc) e name config q
