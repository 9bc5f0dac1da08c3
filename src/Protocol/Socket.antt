-- ===== src/Protocol/Socket.antt =====
-- crates/protocol/src/socket.rs: where the socket of the daemon is. The environment is a function from
-- names to values; a value that is not UTF-8 counts as missing, as `env::var` has it.
use fake_notify.Base.{
  ◌≡◌, refl, ◌⊎◌, inl, inr, Option, none, some, Option-cases, FilePath, Text, path_from, join,
  ascii,
}

abbrev pub default_socket_path : Text
default_socket_path = ascii "/run/fakenotify/fakenotify.sock"

abbrev pub socket_env_var : Text
socket_env_var = ascii "FAKENOTIFY_SOCKET"

abbrev pub xdg_runtime_dir : Text
xdg_runtime_dir = ascii "XDG_RUNTIME_DIR"

unfoldable pub get_socket_path : (Text → Option Text) → FilePath
get_socket_path env = elim (env socket_env_var) [
  | some path ↦ path_from path
  | none ↦ path_from default_socket_path
]

unfoldable pub get_socket_path_with_xdg_fallback : (Text → Option Text) → FilePath
get_socket_path_with_xdg_fallback env = elim (env socket_env_var) [
  | some path ↦ path_from path
  | none ↦ elim (env xdg_runtime_dir) [
    | some runtime_dir ↦ join (path_from runtime_dir) (ascii "fakenotify.sock")
    | none ↦ path_from default_socket_path
  ]
]

-- The two functions name the same socket where the override is set, and where the runtime directory
-- is not.
pub socket_paths_agree :
    (env : Text → Option Text)
    → ((path : Text) × (env socket_env_var ≡ some path)) ⊎ (env xdg_runtime_dir ≡ none)
    → get_socket_path env ≡ get_socket_path_with_xdg_fallback env
unfolding get_socket_path get_socket_path_with_xdg_fallback
socket_paths_agree env (inl (path, h)) =
    rw (h, get_socket_path, get_socket_path_with_xdg_fallback) refl
socket_paths_agree env (inr unset) = elim (Option-cases (env socket_env_var)) [
  | inl no_override ↦
      rw (no_override, unset, get_socket_path, get_socket_path_with_xdg_fallback) refl
  | inr (path, h) ↦ rw (h, get_socket_path, get_socket_path_with_xdg_fallback) refl
]
