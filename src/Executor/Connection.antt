-- ===== src/Executor/Connection.antt =====
-- The connection file: `serializeConnectionInfo` and `deserializeConnectionInfo`. That a file which
-- cannot be read or parsed counts as none is `none` here. Writing and deleting it are taken to
-- succeed.
use code_push.Common.{String, Bool, Option, none, some, List, [], ◌∷◌, is_truthy, if◌then◌else◌}
use code_push.Executor.{Stored, Effect, saves, forgets}
use code_push.Executor.Sdk.{Environment, get_proxy}

abbrev pub truthy : Option String → Option String
truthy none = none
truthy (some s) = if is_truthy s then some s else none

unfoldable pub serialize_connection_info :
    String → Bool → Option String → Option String → Option Bool → Stored
serialize_connection_info access_key preserve custom_server_url proxy no_proxy = record {
  access_key_name = none;
  access_key = some access_key;
  custom_server_url = truthy custom_server_url;
  preserve_access_key_on_logout = some preserve;
  proxy = proxy;
  no_proxy = no_proxy;
}

-- The conversion of the older format.
abbrev modern : Stored → Stored
modern stored = elim (truthy stored.access_key_name) [
  | some name ↦ record {
    access_key_name = none;
    access_key = some name;
    custom_server_url = none;
    preserve_access_key_on_logout = none;
    proxy = none;
    no_proxy = none;
  }
  | none ↦ stored
]

unfoldable pub deserialize_connection_info : Environment → Option Stored → Option Stored
unfolding get_proxy
deserialize_connection_info env none = none
deserialize_connection_info env (some stored) =
    let info = modern stored in
    some (record info { proxy = get_proxy env info.proxy info.no_proxy })

-- The file when the effects have happened.
unfoldable pub file_after : List Effect → Option Stored → Option Stored
file_after [] file = file
file_after (saves stored ∷ effects) file = file_after effects (some stored)
file_after (forgets ∷ effects) file = file_after effects none
file_after (_ ∷ effects) file = file_after effects file
