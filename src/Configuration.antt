-- ===== src/Configuration.antt =====
-- src/ski/configuration.py and src/ski/environment.py: the validated configuration of the service.
pub mod Settings
pub mod Laws
use server_key_injection.Base.{
  ℕ, Bool, true, false, not, ◌&&◌, ◌||◌, Option, none, some, List, [], ◌∷◌, ◌++◌, map, Result, ok,
  err, raise_if, ◌>>=◌, ◌>>◌, if◌then◌else◌, ◌==◌, nat_eq, list_eq, contains, distinct, all,
}
use server_key_injection.Base.Int.{ℤ, pos, leb_ℤ}
use server_key_injection.Base.Text.{Text, codes, strip, split}
use server_key_injection.Base.Dict.{Fields, set_field, get_field, update}
use server_key_injection.Policy.{ordinary_certificate_lifetime, ordinary_certificate_extensions}
use server_key_injection.State.Records.{path_name}

-- What the file system, `ipaddress` and dotenv answer.
pub record Places : Type 0 where
  pub is_file : Text → Bool
  pub expanduser : Text → Text
  pub parent_is_dir : Text → Bool
  pub parent_writable : Text → Bool
  pub is_ip_address : Text → Bool
  pub dotenv_values : Text → Fields (Option Text)

-- `RuntimeConfiguration`
pub record RuntimeConfiguration : Type 0 where
  pub bind : Text
  pub port : ℤ
  pub database : Text
  pub ca_private_key : Option Text
  pub ca_public_key : Option Text
  pub ca_krl : Option Text
  pub ordinary_extensions : List Text
  pub certificate_lifetime : ℕ
  pub environment_file : Option Text
  pub values : Fields Text

-- `ConfigurationError`, by its message
abbrev pub Checked : Type 0 → Type 0
Checked = Result Text

abbrev pub first_file : (Text → Bool) → List Text → Option Text
first_file is_file [] = none
first_file is_file (path ∷ paths) =
    let rest = first_file is_file paths in if is_file path then some path else rest

ends_in_slash : Text → Bool
ends_in_slash [] = false
ends_in_slash (c ∷ []) = c == b'/'
ends_in_slash (_ ∷ c ∷ s) = ends_in_slash (c ∷ s)

-- `directory / name` of pathlib, where `directory` is empty, the current one, the root, or normalised
unfoldable pub join_path : Text → Text → Text
unfolding ends_in_slash
join_path directory name =
    if directory == [] || directory == codes "."
    then name
    else (if ends_in_slash directory then directory ++ name else directory ++ (b'/' ∷ name))

-- `find_environment_file`, with the directory and the home directory given
unfoldable pub find_environment_file :
    Places → (directory home_directory system_file : Text) → Option Text
unfolding join_path
find_environment_file places directory home_directory system_file = first_file places.is_file (
    join_path directory (codes ".env")
    ∷ join_path home_directory (codes ".ski.env")
    ∷ system_file
    ∷ [])

unfoldable pub validate_bind : Places → Text → Checked Text
validate_bind places bind =
    raise_if (not (bind == codes "*") && not (places.is_ip_address bind))
      (codes "SKI_BIND must be an IPv4 or IPv6 address")
    >> ok bind

unfoldable pub validate_port : ℤ → (allow_ephemeral : Bool) → Checked ℤ
validate_port port allow_ephemeral =
    raise_if (not (leb_ℤ (if allow_ephemeral then pos 0 else pos 1) port && leb_ℤ port (pos 65535)))
      (codes "SKI_PORT must be between 1 and 65535")
    >> ok port

-- `_validate_database` and `_validate_output_path`, which differ in the name of the variable
unfoldable pub validate_output_path : Places → Option Text → (variable : Text) → Checked Text
validate_output_path places none variable = err (variable ++ codes " is required")
validate_output_path places (some value) variable = do
  raise_if (value == []) (variable ++ codes " is required")
  let path = places.expanduser value
  raise_if (contains ([] ∷ codes "." ∷ codes ".." ∷ []) (path_name path))
      (variable ++ codes " must name a file")
  raise_if (not (places.parent_is_dir path)) (variable ++ codes " parent directory is unavailable")
  raise_if (not (places.parent_writable path))
      (variable ++ codes " parent directory is not writable")
  ok path

unfoldable pub parse_ordinary_extensions : Option Text → Checked (List Text)
parse_ordinary_extensions none = err (codes "ORDINARY_CERT_EXTENSIONS is required")
parse_ordinary_extensions (some value) = do
  raise_if (value == [] || strip value == []) (codes "ORDINARY_CERT_EXTENSIONS is required")
  let extensions = map strip (split b',' value)
  raise_if (contains extensions []) (codes "ORDINARY_CERT_EXTENSIONS contains an empty value")
  raise_if (not (distinct extensions)) (codes "ORDINARY_CERT_EXTENSIONS contains a duplicate")
  raise_if (not (all (contains ordinary_certificate_extensions) extensions))
      (codes "ORDINARY_CERT_EXTENSIONS contains an unsupported value")
  ok extensions

-- The values of the file that are not `None`.
abbrev pub given_values : Fields (Option Text) → Fields Text → Fields Text
given_values [] values = values
given_values ((key, none) ∷ fields) values = given_values fields values
given_values ((key, some value) ∷ fields) values = given_values fields (set_field key value values)

abbrev pub file_values : Places → Option Text → Fields Text
file_values places none = []
file_values places (some path) = given_values (places.dotenv_values path) []

-- The arguments of `load_runtime_configuration`, with the working directory and `Path.home()`.
pub record Request : Type 0 where
  pub bind : Text
  pub port : ℤ
  pub exported : Fields Text
  pub directory : Text
  pub home_directory : Option Text
  pub home : Text
  pub system_file : Text
  pub allow_ephemeral_port : Bool
  pub require_ordinary_ca : Bool

abbrev pub option_or : Option Text → Text → Text
option_or none default = default
option_or (some value) default = value

-- `Path(exported.get("HOME", str(Path.home())))`, where no home directory is given
abbrev pub selected_home : Request → Text
selected_home request =
    option_or request.home_directory
      (option_or (get_field (codes "HOME") request.exported) request.home)

abbrev pub environment_file_of : Places → Request → Option Text
environment_file_of places request =
    find_environment_file places request.directory (selected_home request) request.system_file

abbrev pub values_of : Places → Request → Fields Text
values_of places request =
    update (file_values places (environment_file_of places request)) request.exported

-- The settings of the CA.
pub record CaSettings : Type 0 where
  pub private_key : Option Text
  pub public_key : Option Text
  pub krl : Option Text
  pub extensions : List Text

unfoldable pub ca_settings : Places → Bool → Fields Text → Checked CaSettings
unfolding validate_output_path parse_ordinary_extensions
ca_settings places false values =
    ok (record { private_key = none; public_key = none; krl = none; extensions = [] })
ca_settings places true values = do
  private_key ←
      validate_output_path places (get_field (codes "SKI_CA_PRIVATE_KEY") values)
        (codes "SKI_CA_PRIVATE_KEY")
  public_key ←
      validate_output_path places (get_field (codes "SKI_CA_PUBLIC_KEY") values)
        (codes "SKI_CA_PUBLIC_KEY")
  krl ← validate_output_path places (get_field (codes "SKI_CA_KRL") values) (codes "SKI_CA_KRL")
  extensions ← parse_ordinary_extensions (get_field (codes "ORDINARY_CERT_EXTENSIONS") values)
  ok (record {
    private_key = some private_key;
    public_key = some public_key;
    krl = some krl;
    extensions = extensions;
  })

unfoldable pub load_runtime_configuration : Places → Request → Checked RuntimeConfiguration
unfolding find_environment_file update validate_bind validate_port validate_output_path ca_settings
load_runtime_configuration places request = do
  bind ← validate_bind places request.bind
  port ← validate_port request.port request.allow_ephemeral_port
  database ←
      validate_output_path places (get_field (codes "SKI_CA_DATABASE") (values_of places request))
        (codes "SKI_CA_DATABASE")
  settings ← ca_settings places request.require_ordinary_ca (values_of places request)
  ok (record {
    bind = bind;
    port = port;
    database = database;
    ca_private_key = settings.private_key;
    ca_public_key = settings.public_key;
    ca_krl = settings.krl;
    ordinary_extensions = settings.extensions;
    certificate_lifetime = ordinary_certificate_lifetime;
    environment_file = environment_file_of places request;
    values = values_of places request;
  })
