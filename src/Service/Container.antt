-- ===== src/Service/Container.antt =====
-- The containers of pkg/service/grpc, http and process (container.go), which find a service's address
-- in the environment, and the clients that ask a service for its health
-- (pkg/service/http/health.go, pkg/service/grpc/helthcheckclient.go).
use goico.Shared.{ℕ, Bool, true, false, Option, none, some, [], ◌∷◌, ◌++◌, eqb, if◌then◌else◌}
use goico.Env.Os.{Text, Environ}
use goico.Env.Getters.{string}
use goico.Shared.Result.{Result, ok, err}
use goico.Shared.Outcome.{Outcome, returns, panics}
use goico.Service.Health.{ServingStatus, unknown, serving}

-- ".addr"
abbrev pub dot_addr : Text
dot_addr = 46 ∷ 97 ∷ 100 ∷ 100 ∷ 114 ∷ []

-- `Addr`
unfoldable pub addr : Text → Environ → Text
unfolding string
addr name e = string (name ++ dot_addr) ([] ∷ []) e

unfoldable pub or_panic : Text → Outcome Text
or_panic [] = panics
or_panic (c ∷ a) = returns (c ∷ a)

-- `AddrOrPanic`
unfoldable pub addr_or_panic : Text → Environ → Outcome Text
unfolding addr or_panic
addr_or_panic name e = or_panic (addr name e)

-- `ErrNotHealthy`, or what a call returns
pub data HealthError (X : Type 0) : Type 0 where
  not_healthy : Text → HealthError X
  failed_check : X → HealthError X
  service_not_set : HealthError X

-- `NewHealthCheckClient` of a container, by the client that its service makes
unfoldable pub new_health_check_client :
    {X C : Type 0} → Option (Result X C) → Result (HealthError X) C
new_health_check_client none = err service_not_set
new_health_check_client (some (ok c)) = ok c
new_health_check_client (some (err x)) = err (failed_check x)

-- What a server answers to the request of checkServiceHealth: the code of the response, and what the
-- Close of its body returns
pub record Response (X : Type 0) : Type 0 where
  pub status_code : ℕ
  pub closed : Option X

abbrev pub is_serving : ServingStatus → Bool
is_serving serving = true
is_serving s = false

module _ {X : Type 0} where
  unfoldable pub of_response : Text → Response X → Option (HealthError X)
  of_response a r = elim r.closed [
    | some x ↦ some (failed_check x)
    | none ↦ if eqb r.status_code 200 then none else some (not_healthy a)
  ]

  -- `checkServiceHealth`, by what the parser of the URL, the builder of the client and the request
  -- answer: nil if all is well
  unfoldable pub check_service_health :
      Text → Option X → Option X → Result X (Response X) → Option (HealthError X)
  unfolding of_response
  check_service_health a (some x) client response = some (failed_check x)
  check_service_health a none (some x) response = some (failed_check x)
  check_service_health a none none (err x) = some (failed_check x)
  check_service_health a none none (ok r) = of_response a r

  -- `Check` of a gRPC client, by what the server answers
  unfoldable pub check : Result X ServingStatus → ServingStatus × Option X
  check (err x) = (unknown, some x)
  check (ok s) = (s, none)

  -- `CheckOk`
  unfoldable pub check_ok : Text → Result X ServingStatus → Option (HealthError X)
  unfolding check
  check_ok a answer = elim (check answer).1 [
    | some x ↦ some (failed_check x)
    | none ↦ if is_serving (check answer).0 then none else some (not_healthy a)
  ]
