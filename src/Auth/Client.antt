-- ===== src/Auth/Client.antt =====
-- dmlf/communication/auth.py: `TokenClientInterceptor` and `NodeSecretClientInterceptor`.
use Prim.Native.String.{◌++◌ as str_append}
use distributed_ml_training.Base.{
  String, Option, none, some, List, [], ◌∷◌, ◌++◌, ◌==◌, if◌then◌else◌,
}
use mathlib.Core.Option.{get_or}

abbrev pub Metadata : Type 0
Metadata = List (String × String)

-- _add_auth
unfoldable pub add_auth : String → Option Metadata → Metadata
add_auth token metadata = get_or metadata [] ++ ("authorization", str_append "Bearer " token) ∷ []

-- The fields of NodeSecretClientInterceptor.
pub record Credentials : Type 0 where
  pub node_id : Option String
  pub node_secret : Option String

abbrev pub no_credentials : Credentials
no_credentials = record { node_id = none; node_secret = none }

unfoldable pub set_credentials : String → String → Credentials → Credentials
set_credentials id secret c = record { node_id = some id; node_secret = some secret }

-- `if value: md.append((key, value))`: None and the empty text are left out.
unfoldable pub append_set : String → Option String → Metadata → Metadata
append_set key none md = md
append_set key (some v) md = if v == "" then md else md ++ (key, v) ∷ []

-- _add_node_secret
unfoldable pub add_node_secret : Credentials → Option Metadata → Metadata
unfolding append_set
add_node_secret c metadata =
    append_set "node-secret" c.node_secret (append_set "node-id" c.node_id (get_or metadata []))

-- The metadata of a call through the agent's channel: the token first, then the credentials.
unfoldable pub agent_metadata : String → Credentials → Option Metadata → Metadata
unfolding add_auth add_node_secret
agent_metadata token c metadata = add_node_secret c (some (add_auth token metadata))
