-- ===== src/Service/Health.antt =====
-- pkg/service/grpc/service.go: the health check of a gRPC service. The server that publishes the status,
-- google.golang.org/grpc/health, is an interface here.
use goico.Shared.{ℕ, ◌≡◌, refl, Bool, true, false, Option, some, List, [], ◌∷◌, set}

-- `HealthCheckResponse_ServingStatus`
pub data ServingStatus : Type 0 where
  unknown serving not_serving service_unknown : ServingStatus

-- `health.Server` with its documented behaviour: Shutdown sets every status to not serving, and makes
-- the server ignore all changes from then on.
pub record HealthServer : Type 1 where
  pub Srv : Type 0
  pub status_of : List ℕ → Srv → Option ServingStatus
  pub is_shut : Srv → Bool
  pub set_serving_status : List ℕ → ServingStatus → Srv → Srv
  pub shutdown : Srv → Srv
  pub status_of-set :
      (n : List ℕ) (v : ServingStatus) (s : Srv)
      → is_shut s ≡ false
      → (status_of n (set_serving_status n v s) ≡ some v)
        × (is_shut (set_serving_status n v s) ≡ false)
  pub set_shut :
      (n : List ℕ) (v : ServingStatus) (s : Srv) → is_shut s ≡ true → set_serving_status n v s ≡ s
  pub status_of-shutdown :
      (n : List ℕ) (v : ServingStatus) (s : Srv)
      → status_of n s ≡ some v
      → status_of n (shutdown s) ≡ some not_serving
  pub is_shut-shutdown : (s : Srv) → is_shut (shutdown s) ≡ true

module _ (h : HealthServer) (name : List ℕ) where
  open h use {Srv, status_of, is_shut, set_serving_status, shutdown}

  -- `checkAndSetServingStatus`, where `failed` says whether the check returned an error
  unfoldable pub check_and_set_serving_status : Bool → ServingStatus → Srv → ServingStatus × Srv
  check_and_set_serving_status true serving s = (not_serving, set_serving_status name not_serving s)
  check_and_set_serving_status true unknown s = (not_serving, set_serving_status name not_serving s)
  check_and_set_serving_status false not_serving s = (serving, set_serving_status name serving s)
  check_and_set_serving_status false unknown s = (serving, set_serving_status name serving s)
  check_and_set_serving_status failed current s = (current, s)

  -- The ticks of `healthcheckIt`: a check at each
  unfoldable pub ticks : List Bool → ServingStatus → Srv → ServingStatus × Srv
  unfolding check_and_set_serving_status
  ticks [] current s = (current, s)
  ticks (failed ∷ more) current s =
      let (current', s') = check_and_set_serving_status failed current s in ticks more current' s'

  -- `healthcheckIt` up to a select: a check at the start, and one at each tick
  unfoldable pub healthcheck_it : Bool → List Bool → Srv → ServingStatus × Srv
  unfolding ticks
  healthcheck_it failed more s = ticks (failed ∷ more) unknown s

  -- `healthcheckIt` once the context is done
  unfoldable pub healthcheck_done : Bool → List Bool → Srv → Srv
  unfolding healthcheck_it
  healthcheck_done failed more s = shutdown (healthcheck_it failed more s).1

  abbrev pub status_for : Bool → ServingStatus
  status_for true = not_serving
  status_for false = serving

  abbrev pub last_of : Bool → List Bool → Bool
  last_of failed [] = failed
  last_of failed (next ∷ more) = last_of next more

  ticks_lem :
      (more : List Bool) (failed : Bool) (s : Srv)
      → is_shut s ≡ false
      → status_of name s ≡ some (status_for failed)
      → ((ticks more (status_for failed) s).0 ≡ status_for (last_of failed more))
        × (status_of name (ticks more (status_for failed) s).1
            ≡ some (status_for (last_of failed more)))
  unfolding ticks
  ticks_lem [] failed s live at = (refl, at)
  ticks_lem (true ∷ more) true s live at = ticks_lem more true s live at
  ticks_lem (false ∷ more) false s live at = ticks_lem more false s live at
  ticks_lem (true ∷ more) false s live at =
      let (set, still) = h.status_of-set name not_serving s live in ticks_lem more true _ still set
  ticks_lem (false ∷ more) true s live at =
      let (set, still) = h.status_of-set name serving s live in ticks_lem more false _ still set

  -- After any number of checks, on a server that is not shut down, the published status and the one
  -- kept by the loop are those of the last check; and once the context is done, the service is
  -- published as not serving.
  pub healthcheck_lem :
      (failed : Bool) (more : List Bool) (s : Srv)
      → is_shut s ≡ false
      → ((healthcheck_it failed more s).0 ≡ status_for (last_of failed more))
        × (status_of name (healthcheck_it failed more s).1
            ≡ some (status_for (last_of failed more)))
        × (status_of name (healthcheck_done failed more s) ≡ some not_serving)
  unfolding healthcheck_it healthcheck_done
  healthcheck_lem failed more s live =
      let (kept, published) = start failed in
      (kept, published, h.status_of-shutdown name _ _ published)
    where
      start :
          (failed : Bool)
          → ((ticks (failed ∷ more) unknown s).0 ≡ status_for (last_of failed more))
            × (status_of name (ticks (failed ∷ more) unknown s).1
                ≡ some (status_for (last_of failed more)))
      start true =
          let (set, still) = h.status_of-set name not_serving s live in
          unfold ticks in ticks_lem more true _ still set
      start false =
          let (set, still) = h.status_of-set name serving s live in
          unfold ticks in ticks_lem more false _ still set
