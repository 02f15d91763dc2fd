-- ===== src/Auth/Server.antt =====
-- dmlf/communication/auth.py: `TokenServerInterceptor` and `NodeSecretServerInterceptor`.
use distributed_ml_training.Base.{
  String, Option, none, some, Bool, true, false, ◌||◌, List, [], ◌∷◌, any, ◌==◌, if◌then◌else◌,
}
use mathlib.Core.Option.{get_or}
use distributed_ml_training.Text.{removeprefix, strip}
use distributed_ml_training.Registry.Schema.{Registry}
use distributed_ml_training.Registry.Nodes.{get_node_secret}
use distributed_ml_training.Auth.Client.{Metadata}

-- What of `handler_call_details` is read.
pub record Call : Type 0 where
  pub method : String
  pub invocation_metadata : Option Metadata

-- dict(pairs).get(key): the last pair with the key counts.
unfoldable pub meta_get : String → Metadata → Option String
meta_get key [] = none
meta_get key ((k, v) ∷ rest) = elim (meta_get key rest) [
  | some w ↦ some w
  | none ↦ if k == key then some v else none
]

-- An abort is always with the code UNAUTHENTICATED.
pub data Verdict : Type 0 where
  proceed : Verdict
  abort : (message : String) → Verdict

unfoldable pub check_token : String → Call → Verdict
unfolding meta_get removeprefix strip
check_token token call =
    let meta = get_or call.invocation_metadata [] in
    let sent = strip (removeprefix "Bearer " (get_or (meta_get "authorization" meta) "")) in
    if sent == token then proceed else abort "invalid token"

abbrev pub node_auth_rpcs : List String
node_auth_rpcs =
    "/cml.ClusterManager/SendHeartbeat" ∷ "/cml.ClusterManager/ListenForCommands"
    ∷ "/cml.ClusterManager/ReportJobStatus" ∷ "/cml.ClusterManager/StreamLogs" ∷ []

unfoldable pub needs_node : String → Bool
needs_node method = any (λ m. m == method) node_auth_rpcs

-- `not value`, for a text or None.
abbrev pub is_unset : Option String → Bool
is_unset none = true
is_unset (some v) = v == ""

-- `stored != node_secret`, negated.
abbrev pub same_secret : Option String → Option String → Bool
same_secret none none = true
same_secret (some a) (some b) = a == b
same_secret _ _ = false

-- The checks of a node-authenticated call, by its two metadata values.
unfoldable pub check_credentials : Registry → Option String → Option String → Verdict
check_credentials r node_id node_secret =
    if is_unset node_id || is_unset node_secret
    then abort "missing node credentials"
    else if same_secret (get_node_secret (get_or node_id "") r) node_secret
    then proceed
    else abort "invalid node secret"

unfoldable pub check_node : Registry → Call → Verdict
check_node r call =
    let meta = get_or call.invocation_metadata [] in
    if needs_node call.method
    then check_credentials r (meta_get "node-id" meta) (meta_get "node-secret" meta)
    else proceed

-- `create_server_interceptors`: the token is checked first.
unfoldable pub authenticate : String → Registry → Call → Verdict
authenticate token r call = elim (check_token token call) [
  | proceed ↦ check_node r call
  | abort m ↦ abort m
]
