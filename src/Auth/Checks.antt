-- ===== src/Auth/Checks.antt =====
-- dmlf/communication/auth.py: which calls pass the interceptors.
use Prim.Native.String.{◌++◌ as str_append}
use text.Mathlib.TextLemmas.{nil-append, cons-append}
use mathlib.Core.Option.{get_or}
use distributed_ml_training.Base.{
  ◌≡◌, ◌≢◌, refl, ap, ◌↔◌, ◌⊎◌, inl, inr, String, Option, none, some, true, false, any, List, [],
  ◌∷◌, ◌++◌, arith, ◌==◌, eq_iff, eq_refl, Bool-cases, if◌then◌else◌,
}
use distributed_ml_training.Text.{codes, after_prefix, removeprefix, strip}
use distributed_ml_training.Registry.Schema.{Registry}
use distributed_ml_training.Registry.Nodes.{get_node_secret}
use distributed_ml_training.Auth.Client.{
  Metadata, add_auth, append_set, add_node_secret, agent_metadata,
}
use distributed_ml_training.Auth.Server.{
  Call, meta_get, proceed, check_token, needs_node, same_secret, check_credentials, check_node,
  authenticate,
}

abbrev pub metadata_of : Call → Metadata
metadata_of call = get_or call.invocation_metadata []

-- The call carries the shared token.
abbrev pub CarriesToken : String → Call → Type 0
CarriesToken token call =
    strip (removeprefix "Bearer " (get_or (meta_get "authorization" (metadata_of call)) "")) ≡ token

-- The call names a node and carries the secret that the registry holds for it.
pub record IsNode (r : Registry) (call : Call) : Type 0 where
  pub id : String
  pub secret : String
  pub named : meta_get "node-id" (metadata_of call) ≡ some id
  pub shown : meta_get "node-secret" (metadata_of call) ≡ some secret
  pub id_set : id ≢ ""
  pub secret_set : secret ≢ ""
  pub stored : get_node_secret id r ≡ some secret

check_token_iff :
    (token : String) (call : Call) → (check_token token call ≡ proceed) ↔ CarriesToken token call
unfolding check_token
check_token_iff token call = (
  λ h. ground (
    arith,
    eq_iff
        (strip (removeprefix "Bearer " (get_or (meta_get "authorization" (metadata_of call)) "")))
        token,
  ),
  λ h. rw (h, eq_refl),
)

same_secret_iff : (a : Option String) (b : String) → (same_secret a (some b) ≡ true) ↔ (a ≡ some b)
same_secret_iff none b = (λ h. cc, λ h. cc)
same_secret_iff (some a) b = (λ h. ap some ((eq_iff a b).0 h), λ h. ground (arith, eq_iff a b))

credentials-proceed :
    (r : Registry) (i s : Option String)
    → check_credentials r i s ≡ proceed
    → (id : String) × (secret : String) × (i ≡ some id)
      × (s ≡ some secret)
      × (id ≢ "")
      × (secret ≢ "")
      × (get_node_secret id r ≡ some secret)
unfolding check_credentials
credentials-proceed r none s h = cc
credentials-proceed r (some id) none h = ground (arith, eq_iff id "")
credentials-proceed r (some id) (some secret) h = (
  id,
  secret,
  refl,
  refl,
  ground (arith, eq_iff id ""),
  ground (arith, eq_iff secret ""),
  ground (arith, same_secret_iff (get_node_secret id r) secret),
)

proceed-credentials :
    (r : Registry) (id secret : String)
    → id ≢ ""
    → secret ≢ ""
    → get_node_secret id r ≡ some secret
    → check_credentials r (some id) (some secret) ≡ proceed
unfolding check_credentials
proceed-credentials r id secret i s h =
    ground (arith, eq_iff id "", eq_iff secret "", same_secret_iff (get_node_secret id r) secret)

authenticate-proceed :
    (token : String) (r : Registry) (call : Call)
    → authenticate token r call ≡ proceed
    → (check_token token call ≡ proceed) × (check_node r call ≡ proceed)
unfolding authenticate
authenticate-proceed token r call h = ground arith

check_node-proceed :
    (r : Registry) (call : Call)
    → check_node r call ≡ proceed
    → needs_node call.method ≡ true
    → IsNode r call
unfolding check_node
check_node-proceed r call h needs =
    let (id, secret, named, shown, id_set, secret_set, stored) =
      credentials-proceed r (meta_get "node-id" (metadata_of call))
        (meta_get "node-secret" (metadata_of call)) (rw (needs, check_node) at h) in
    record {
      id = id;
      secret = secret;
      named = named;
      shown = shown;
      id_set = id_set;
      secret_set = secret_set;
      stored = stored;
    }

proceed-check_node :
    (r : Registry) (call : Call)
    → (needs_node call.method ≡ false) ⊎ IsNode r call
    → check_node r call ≡ proceed
unfolding check_node
proceed-check_node r call (inl free) = rw (free, check_node) refl
proceed-check_node r call (inr n) = elim (Bool-cases (needs_node call.method)) [
  | inl needs ↦
      rw (needs, check_node, n.named, n.shown)
        (proceed-credentials r n.id n.secret n.id_set n.secret_set n.stored)
  | inr free ↦ rw (free, check_node) refl
]

free_or_IsNode :
    (r : Registry) (call : Call)
    → check_node r call ≡ proceed
    → (needs_node call.method ≡ false) ⊎ IsNode r call
free_or_IsNode r call h = elim (Bool-cases (needs_node call.method)) [
  | inl needs ↦ inr (check_node-proceed r call h needs)
  | inr free ↦ inl free
]

-- The calls that only a node with its secret may make.
abbrev pub node_methods : List String
node_methods =
    "/cml.ClusterManager/SendHeartbeat" ∷ "/cml.ClusterManager/ListenForCommands"
    ∷ "/cml.ClusterManager/ReportJobStatus" ∷ "/cml.ClusterManager/StreamLogs" ∷ []

-- A call passes both interceptors exactly when it carries the token and, unless its method is none
-- of those for nodes, names a node and shows the secret that the registry holds for it.
pub authenticate_iff :
    (token : String) (r : Registry) (call : Call)
    → (authenticate token r call ≡ proceed) ↔ (
        CarriesToken token call
        × ((any (λ m. m == call.method) node_methods ≡ false) ⊎ IsNode r call))
unfolding authenticate needs_node
authenticate_iff token r call = (
  λ h.
      let (t, n) = authenticate-proceed token r call h in
      ((check_token_iff token call).0 t, free_or_IsNode r call n),
  λ (carries, node).
      rw ((check_token_iff token call).1 carries, authenticate) (proceed-check_node r call node),
)

after_prefix-append : (p t : String) → after_prefix (codes p) (str_append p t) ≡ some t
unfolding after_prefix
after_prefix-append String.[] t = ap some (nil-append t)
after_prefix-append (String.◌∷◌ c p) t = rw cons-append (ground (arith, after_prefix-append p t))

pub removeprefix-append : (p t : String) → removeprefix p (str_append p t) ≡ t
unfolding removeprefix
removeprefix-append p t = rw (after_prefix-append p t, removeprefix)

meta_get-snoc :
    (key k v : String) (l : Metadata)
    → meta_get key (l ++ (k, v) ∷ []) ≡ (if k == key then some v else meta_get key l)
unfolding meta_get
meta_get-snoc key k v [] = ground arith
meta_get-snoc key k v ((j, w) ∷ l) = ground (arith, meta_get-snoc key k v l)

append_set-set :
    (key v : String) (l : Metadata) → v ≢ "" → append_set key (some v) l ≡ l ++ (key, v) ∷ []
unfolding append_set
append_set-set key v l h = ground (arith, eq_iff v "")

-- The three values that the interceptors of a registered agent add.
agent_metadata-get :
    (token id secret : String) (metadata : Option Metadata)
    → id ≢ ""
    → secret ≢ ""
    → (meta_get "authorization"
          (agent_metadata token (record { node_id = some id; node_secret = some secret }) metadata)
        ≡ some (str_append "Bearer " token))
      × (meta_get "node-id" (
            agent_metadata token (record { node_id = some id; node_secret = some secret }) metadata)
          ≡ some id)
      × (meta_get "node-secret" (
            agent_metadata token (record { node_id = some id; node_secret = some secret }) metadata)
          ≡ some secret)
unfolding agent_metadata add_node_secret add_auth
agent_metadata-get token id secret metadata i s =
    let base = get_or metadata [] ++ ("authorization", str_append "Bearer " token) ∷ [] in
    let named = append_set-set "node-id" id base i in
    let shown = append_set-set "node-secret" secret (base ++ ("node-id", id) ∷ []) s in
    (
      rw (named, shown) (simp meta_get-snoc),
      rw (named, shown) (simp meta_get-snoc),
      rw (named, shown) (simp meta_get-snoc),
    )

-- Whatever metadata a call of the agent has, it passes the manager's interceptors with the same
-- token, if the token has no spaces round it, once the agent has the credentials that the manager
-- stored at its registration.
pub agent_passes :
    (token id secret method : String) (metadata : Option Metadata) (r : Registry)
    → strip token ≡ token
    → id ≢ ""
    → secret ≢ ""
    → get_node_secret id r ≡ some secret
    → authenticate token r (record {
      method = method;
      invocation_metadata =
          some (
            agent_metadata token
              (record { node_id = some id; node_secret = some secret })
              metadata);
    })
      ≡ proceed
agent_passes token id secret method metadata r stripped i s stored =
    let (sent, named, shown) = agent_metadata-get token id secret metadata i s in
    (authenticate_iff token r _).1 (
      rw (sent, removeprefix-append) stripped,
      inr (record {
        id = id;
        secret = secret;
        named = named;
        shown = shown;
        id_set = i;
        secret_set = s;
        stored = stored;
      }),
    )
