-- ===== src/Agent/Normal.antt =====
-- A secret that has been normalized is in normal form, so that what the agent persists is accepted
-- and hashed as it was when it came.
use crane_oss.Base.{
  String, ◌≡◌, refl, false, ◌||◌, ◌==◌, none, some, List, [], subst, Bool-cases, Option, inl, inr,
  ok, refuse_if, refuse_if-eq-ok, Result-cases, ok-injective, >>=-eq-ok, eqb, ltb, length, ◌+◌,
}
use crane_oss.Api.{KubernetesSecret, ExpectedHostState}
use crane_oss.Agent.Request.{
  Syntax, merge, is_misnamed, type_or_opaque, is_mistyped, has_bad_key, is_oversized, normalize,
  is_badly_versioned, check_secret, validate_expected, normalized, normalize_expected,
  invalid_resource_name, invalid_secret_type, invalid_key, oversized, invalid_size, invalid_version,
}

type-normal : (type : String) → type_or_opaque (type_or_opaque type) ≡ type_or_opaque type
type-normal type = elim (Bool-cases (type == "")) [ inl e ↦ rw e refl | inr e ↦ rw (e, e) refl ]

abbrev normal_form : KubernetesSecret → List (String × String) → KubernetesSecret
normal_form s entries = record s {
  type = type_or_opaque s.type;
  entries = entries;
  string_data = [];
}

normalize-normal_form :
    (x : Syntax) (s : KubernetesSecret) (entries : List (String × String))
    → is_misnamed x s ≡ false
    → is_mistyped x (type_or_opaque s.type) ≡ false
    → has_bad_key x entries ≡ false
    → is_oversized x entries ≡ false
    → normalize x (normal_form s entries) ≡ ok (normal_form s entries)
unfolding normalize
normalize-normal_form x s entries named typed keyed sized =
    rw (type-normal s.type, named, typed, keyed, sized) refl

-- Normalization changes no secret that it has returned.
pub normalize-normal :
    (x : Syntax) (s t : KubernetesSecret) → normalize x s ≡ ok t → normalize x t ≡ ok t
unfolding normalize
normalize-normal x s t h =
    let (_, named, h1) = >>=-eq-ok (refuse_if (is_misnamed x s) invalid_resource_name) _ h in
    let (_, typed, h2) =
      >>=-eq-ok (refuse_if (is_mistyped x (type_or_opaque s.type)) invalid_secret_type) _ h1 in
    let (entries, merged, h3) = >>=-eq-ok (merge s.entries s.string_data) _ h2 in
    let (_, keyed, h4) = >>=-eq-ok (refuse_if (has_bad_key x entries) invalid_key) _ h3 in
    let (_, sized, h5) = >>=-eq-ok (refuse_if (is_oversized x entries) oversized) _ h4 in
    subst (λ r. normalize x r ≡ ok r) (ok-injective (normal_form s entries) t refl h5)
      (normalize-normal_form x s entries (refuse_if-eq-ok _ _ named) (refuse_if-eq-ok _ _ typed)
        (refuse_if-eq-ok _ _ keyed) (refuse_if-eq-ok _ _ sized))

check_secret-normalized :
    (x : Syntax) (secret : Option KubernetesSecret)
    → check_secret x secret ≡ ok tt
    → check_secret x (normalized x secret) ≡ ok tt
check_secret-normalized x none h = refl
check_secret-normalized x (some s) h = elim (Result-cases (normalize x s)) [
  | inl (t, n) ↦ rw (n, normalize-normal x s t n) refl
  | inr (failure, n) ↦ cc
]

-- A valid state is still valid once its secret is normalized.
pub validate-normalize_expected :
    (x : Syntax) (e : ExpectedHostState)
    → validate_expected x e ≡ ok tt
    → validate_expected x (normalize_expected x e) ≡ ok tt
unfolding validate_expected
validate-normalize_expected x e h =
    let (_, _, h1) =
      >>=-eq-ok
        (refuse_if (eqb e.revision 0 || ltb 256 (length e.services + length e.packages))
          invalid_size)
        _ h in
    let (_, _, h2) = >>=-eq-ok (refuse_if (is_badly_versioned x e) invalid_version) _ h1 in
    let (u, c, _) = >>=-eq-ok (check_secret x e.secret) _ h2 in
    rw (check_secret-normalized x e.secret c) (rw c at h)
