-- ===== src/Settings/Load.antt =====
-- LoadConfig of internal/execd/config.go. os.ReadFile and package encoding/json are parameters: an
-- error is its text.
use vpsops.Base.{◌≡◌, Bool, Text, ◌⊎◌, inl, inr, arith}
use vpsops.Types.{Config}
use vpsops.Settings.{ConfigError, valid, invalid, validate, default_config}

pub data LoadError : Type 0 where
  unreadable undecodable : Text → LoadError
  multiple_values : LoadError
  rejected : ConfigError → LoadError

-- What the second Decode finds in the stream: its end, a value, or an error.
pub data Rest : Type 0 where
  at_end another_value : Rest
  broken : Text → Rest

pub record ConfigFile : Type 0 where
  pub read_file : Text → Text ⊎ Text
  -- Decode into a configuration, unknown fields disallowed: a field that is absent keeps its value.
  pub decode_onto : Config → Text → Text ⊎ Config
  pub decode_second : Text → Rest

module _ (is_hex : Text → Bool) (io : ConfigFile) where
  -- LoadConfig
  unfoldable pub load_config : Text → LoadError ⊎ Config
  load_config path = elim (io.read_file path) [
    | inl e ↦ inl (unreadable e)
    | inr b ↦ elim (io.decode_onto default_config b) [
      | inl e ↦ inl (undecodable e)
      | inr cfg ↦ elim (io.decode_second b) [
        | another_value ↦ inl multiple_values
        | broken e ↦ inl (undecodable e)
        | at_end ↦ elim (validate is_hex cfg) [ valid ↦ inr cfg | invalid e ↦ inl (rejected e) ]
      ]
    ]
  ]

  -- Only a valid configuration is loaded.
  pub load_config-valid :
      (path : Text) (cfg : Config) → load_config path ≡ inr cfg → validate is_hex cfg ≡ valid
  unfolding load_config
  load_config-valid path cfg h = ground (arith, h)
