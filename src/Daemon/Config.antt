-- ===== src/Daemon/Config.antt =====
-- crates/daemon/src/config.rs: the configuration, and the sources that it is read from. The crate
-- figment is a parameter: what `extract` makes of the sources in the order in which they were merged.
-- So are the environment, the user's configuration directory and the existence of files.
pub mod Sources
use fake_notify.Base.{
  ℕ, Bool, true, false, Option, none, some, List, [], ◌∷◌, ◌++◌, FilePath, Text, path_from, normal,
  ascii, Result, if◌then◌else◌,
}
use fake_notify.Protocol.Socket.{get_socket_path_with_xdg_fallback}

pub record WatchConfig : Type 0 where
  pub path : FilePath
  pub poll_interval : ℕ
  pub recursive : Bool

pub record DaemonConfig : Type 0 where
  pub socket : FilePath
  pub log_level : Text
  pub max_clients : ℕ
  pub enable_stats : Bool

pub record Config : Type 0 where
  pub daemon : DaemonConfig
  pub watch : List WatchConfig

-- What a process finds around it.
pub record Surroundings : Type 0 where
  pub env : Text → Option Text
  pub config_dir : Option FilePath
  pub exists : FilePath → Bool

unfoldable pub default_socket_path : Surroundings → FilePath
default_socket_path host = get_socket_path_with_xdg_fallback host.env

abbrev pub default_log_level : Text
default_log_level = ascii "info"

abbrev pub default_max_clients : ℕ
default_max_clients = 100

-- `Config::default`
unfoldable pub default_config : Surroundings → Config
unfolding default_socket_path
default_config host = record {
  daemon = record {
    socket = default_socket_path host;
    log_level = default_log_level;
    max_clients = default_max_clients;
    enable_stats = false;
  };
  watch = [];
}

-- A provider that is merged.
pub data Source : Type 0 where
  serialized : Config → Source
  toml_file : FilePath → Source
  env_prefixed : (prefix separator : Text) → Source

unfoldable pub default_paths : Surroundings → List FilePath
default_paths host =
    path_from (ascii "/etc/fakenotify/config.toml")
    ∷ (elim host.config_dir [ none ↦ [] | some dir ↦ dir ]
        ++ (normal (ascii "fakenotify") ∷ normal (ascii "config.toml") ∷ []))
    ∷ []

-- The loop over the default locations, which stops at the first file that is there.
unfoldable pub first_file : Surroundings → List FilePath → List Source
first_file host [] = []
first_file host (path ∷ paths) =
    let rest = first_file host paths in if host.exists path then toml_file path ∷ [] else rest

-- The sources in the order in which `Config::load` merges them.
unfoldable pub sources : Surroundings → Option FilePath → List Source
unfolding first_file default_paths
sources host config_file =
    serialized (default_config host)
    ∷ (elim config_file [
      | some path ↦ toml_file path ∷ []
      | none ↦ first_file host (default_paths host)
    ]
        ++ (env_prefixed (ascii "FAKENOTIFYD_") (ascii "_") ∷ []))

unfoldable pub load :
    Surroundings → (List Source → Result Config Text) → Option FilePath → Result Config Text
unfolding sources
load host extract config_file = extract (sources host config_file)

unfoldable pub with_socket : Config → Option FilePath → Config
with_socket c none = c
with_socket c (some s) = record c { daemon = record c.daemon { socket = s } }

unfoldable pub with_log_level : Config → Option Text → Config
with_log_level c none = c
with_log_level c (some level) = record c { daemon = record c.daemon { log_level = level } }
