-- ===== src/Hosts/Lifecycle.antt =====
-- hostcatalog/service/service.go: GetValidNextStates.
use crane_oss.Base.{ℕ, Bool, List, [], ◌∷◌, eqb}
use crane_oss.Base.Tables.{any}
use crane_oss.Api.{
  HostState, requested, provisioning, booting, registering, converging, ready, draining,
  terminating, terminated, failed, unhealthy,
}

unfoldable pub valid_next_states : HostState → List HostState
valid_next_states requested = provisioning ∷ terminated ∷ failed ∷ []
valid_next_states provisioning = booting ∷ failed ∷ []
valid_next_states booting = registering ∷ failed ∷ []
valid_next_states registering = converging ∷ failed ∷ []
valid_next_states converging = ready ∷ failed ∷ []
valid_next_states ready = draining ∷ unhealthy ∷ []
valid_next_states draining = unhealthy ∷ terminating ∷ []
valid_next_states terminating = terminated ∷ failed ∷ []
valid_next_states unhealthy = ready ∷ terminated ∷ []
valid_next_states terminated = []
valid_next_states failed = []

-- Each state has its number, by which states are compared.
abbrev pub code : HostState → ℕ
code requested = 0
code provisioning = 1
code booting = 2
code registering = 3
code converging = 4
code ready = 5
code draining = 6
code unhealthy = 7
code terminating = 8
code terminated = 9
code failed = 10

abbrev pub same_state : HostState → HostState → Bool
same_state a b = eqb (code a) (code b)

-- slices.Contains(GetValidNextStates(from), to)
abbrev pub can_become : HostState → HostState → Bool
can_become from to = any (λ s. same_state s to) (valid_next_states from)
