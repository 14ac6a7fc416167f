-- ===== src/Configuration/Laws.antt =====
-- What the configuration that src/ski/configuration.py returns guarantees the service.
use server_key_injection.Base.{
  ◌≡◌, refl, false, some, ok, nat_eq, list_eq, contains, IsDistinct, Ensures, Ensures->>=, ensured,
}
use server_key_injection.Base.Text.{Text, codes}
use server_key_injection.Base.Dict.{get_field, get_field-update, get_field-update_other, keys_of}
use server_key_injection.Policy.{ordinary_certificate_lifetime}
use server_key_injection.Configuration.{
  Places, RuntimeConfiguration, validate_bind, validate_port, validate_output_path, file_values,
  Request, environment_file_of, values_of, ca_settings, load_runtime_configuration,
}
use server_key_injection.Configuration.Settings.{
  IsPlace, IsBind, IsPort, IsCaSettings, validate_bind-IsBind, validate_port-IsPort,
  validate_output_path-IsPlace, ca_settings-IsCaSettings,
}

module _ (places : Places) (request : Request) where
  -- The configuration is the request's, checked: an address and a port to listen on, files in directories that
  -- can be written, supported extensions, and the exported values before those of the file.
  pub record IsUsable (c : RuntimeConfiguration) : Type 0 where
    pub bind : (c.bind ≡ request.bind) × IsBind places c.bind
    pub port : (c.port ≡ request.port) × IsPort request.allow_ephemeral_port c.port
    pub database : IsPlace places (get_field (codes "SKI_CA_DATABASE") c.values) c.database
    pub ca : IsCaSettings places request.require_ordinary_ca c.values (record {
      private_key = c.ca_private_key;
      public_key = c.ca_public_key;
      krl = c.ca_krl;
      extensions = c.ordinary_extensions;
    })
    pub lifetime : c.certificate_lifetime ≡ ordinary_certificate_lifetime
    pub exported :
        (key value : Text)
        → get_field key request.exported ≡ some value
        → get_field key c.values ≡ some value
    pub unexported :
        (key : Text)
        → contains (keys_of request.exported) key ≡ false
        → get_field key c.values ≡ get_field key (file_values places c.environment_file)

  loaded-IsUsable :
      IsDistinct (keys_of request.exported)
      → Ensures IsUsable (load_runtime_configuration places request)
  unfolding Ensures load_runtime_configuration
  loaded-IsUsable unique = Ensures->>= IsUsable (validate_bind places request.bind) _ λ bind h1.
      Ensures->>= IsUsable (validate_port request.port request.allow_ephemeral_port) _ λ port h2.
        Ensures->>= IsUsable
          (validate_output_path places
            (get_field (codes "SKI_CA_DATABASE") (values_of places request))
            (codes "SKI_CA_DATABASE"))
          _
          λ database h3.
            Ensures->>= IsUsable
              (ca_settings places request.require_ordinary_ca (values_of places request)) _
              λ settings h4. record {
                bind =
                    ensured _ (validate_bind places request.bind)
                      (validate_bind-IsBind places request.bind) h1;
                port =
                    ensured _ (validate_port request.port request.allow_ephemeral_port)
                      (validate_port-IsPort request.port request.allow_ephemeral_port) h2;
                database =
                    ensured
                      (IsPlace places
                        (get_field (codes "SKI_CA_DATABASE") (values_of places request)))
                      (validate_output_path places
                        (get_field (codes "SKI_CA_DATABASE") (values_of places request))
                        (codes "SKI_CA_DATABASE"))
                      (validate_output_path-IsPlace places _ _) h3;
                ca =
                    ensured
                      (IsCaSettings places request.require_ordinary_ca (values_of places request))
                      (ca_settings places request.require_ordinary_ca (values_of places request))
                      (ca_settings-IsCaSettings places request.require_ordinary_ca
                        (values_of places request))
                      h4;
                lifetime = refl;
                exported = λ key value.
                    get_field-update key value
                      (file_values places (environment_file_of places request)) request.exported
                      unique;
                unexported = λ key.
                    get_field-update_other key
                      (file_values places (environment_file_of places request)) request.exported;
              }

  -- A configuration that is loaded, from an environment that has each variable once, is usable.
  pub load_runtime_configuration-IsUsable :
      IsDistinct (keys_of request.exported)
      → (c : RuntimeConfiguration) → load_runtime_configuration places request ≡ ok c
      → IsUsable c
  load_runtime_configuration-IsUsable unique c h =
      ensured IsUsable (load_runtime_configuration places request) (loaded-IsUsable unique) h
