-- ===== src/Agent/Request.antt =====
-- kubernetes.go and host.go: which secrets and expected states are well formed.
use crane_oss.Base.{
  ℕ, ◌+◌, ◌^◌, String, Bool, false, not, ◌&&◌, ◌||◌, ◌==◌, Option, none, some, List, [], ◌∷◌, ◌++◌,
  length, ltb, eqb, if◌then◌else◌, Result, ok, err, ◌>>=◌, ◌>>◌, refuse_if,
}
use crane_oss.Base.Tables.{any, sum}
use crane_oss.Api.{KubernetesSecret, ExpectedHostState}

-- Package regexp on the patterns of host.go, the validation package of Kubernetes, the length of a
-- text in bytes, and the hash of a state's JSON.
pub record Syntax : Type 0 where
  pub is_service_name : String → Bool
  pub is_package_name : String → Bool
  pub is_dns_label : String → Bool
  pub is_dns_subdomain : String → Bool
  pub is_qualified_name : String → Bool
  pub is_config_map_key : String → Bool
  pub byte_length : String → ℕ
  pub digest : ExpectedHostState → String

pub data RequestError : Type 0 where
  invalid_size invalid_version invalid_service invalid_package : RequestError
  invalid_resource_name invalid_secret_type duplicate_key invalid_key oversized : RequestError

abbrev pub has_key : String → List (String × String) → Bool
has_key key entries = any (λ entry. entry.0 == key) entries

-- The texts join the data, unless the data has the key.
abbrev pub merge :
    List (String × String) → List (String × String) → Result RequestError (List (String × String))
merge entries [] = ok entries
merge entries ((key, value) ∷ rest) =
    if has_key key entries then err duplicate_key else merge (entries ++ (key, value) ∷ []) rest

abbrev pub is_misnamed : Syntax → KubernetesSecret → Bool
is_misnamed x s =
    not (x.is_dns_label s.namespace)
    || not (x.is_dns_subdomain s.name)
    || (not (s.rollout_deployment == "") && not (x.is_dns_subdomain s.rollout_deployment))

abbrev pub type_or_opaque : String → String
type_or_opaque type = if type == "" then "Opaque" else type

abbrev pub is_mistyped : Syntax → String → Bool
is_mistyped x type = ltb 253 (x.byte_length type) || not (x.is_qualified_name type)

abbrev pub has_bad_key : Syntax → List (String × String) → Bool
has_bad_key x entries = any (λ entry. not (x.is_config_map_key entry.0)) entries

abbrev pub is_oversized : Syntax → List (String × String) → Bool
is_oversized x entries = ltb (2 ^ 20) (sum (λ entry. x.byte_length entry.1) entries)

-- KubernetesSecret.Normalize
unfoldable pub normalize : Syntax → KubernetesSecret → Result RequestError KubernetesSecret
normalize x s = do
  refuse_if (is_misnamed x s) invalid_resource_name
  let type = type_or_opaque s.type
  refuse_if (is_mistyped x type) invalid_secret_type
  entries ← merge s.entries s.string_data
  refuse_if (has_bad_key x entries) invalid_key
  refuse_if (is_oversized x entries) oversized
  ok (record s { type = type; entries = entries; string_data = [] })

abbrev pub is_badly_versioned : Syntax → ExpectedHostState → Bool
is_badly_versioned x e =
    (not (e.image_id == "") || not (e.track == "") || not (e.version == ""))
    && (ltb 256 (x.byte_length e.image_id)
        || ltb 64 (x.byte_length e.track)
        || ltb 128 (x.byte_length e.version)
        || e.image_id == ""
        || e.track == ""
        || e.version == "")

abbrev pub has_bad_package : Syntax → List String → List (String × String) → Bool
has_bad_package x seen [] = false
has_bad_package x seen ((name, action) ∷ rest) =
    not (x.is_package_name name)
    || (not (action == "install") && not (action == "remove"))
    || any (λ earlier. earlier == name) seen
    || has_bad_package x (name ∷ seen) rest

-- A copy of the secret has to normalize.
abbrev pub check_secret : Syntax → Option KubernetesSecret → Result RequestError (Unit {0})
check_secret x none = ok tt
check_secret x (some s) = normalize x s >>= λ t. ok tt

unfoldable pub validate_expected : Syntax → ExpectedHostState → Result RequestError (Unit {0})
validate_expected x e = do
  refuse_if (eqb e.revision 0 || ltb 256 (length e.services + length e.packages)) invalid_size
  refuse_if (is_badly_versioned x e) invalid_version
  check_secret x e.secret
  refuse_if (any (λ service. not (x.is_service_name service.0)) e.services) invalid_service
  refuse_if (has_bad_package x [] e.packages) invalid_package

abbrev pub or_unchanged : Result RequestError KubernetesSecret → KubernetesSecret → KubernetesSecret
or_unchanged (ok t) s = t
or_unchanged (err failure) s = s

abbrev pub normalized : Syntax → Option KubernetesSecret → Option KubernetesSecret
normalized x none = none
normalized x (some s) = some (or_unchanged (normalize x s) s)

-- The handler normalizes the secret of a state that it has validated.
abbrev pub normalize_expected : Syntax → ExpectedHostState → ExpectedHostState
normalize_expected x e = record e { secret = normalized x e.secret }
