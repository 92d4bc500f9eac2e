-- ===== src/Service/Tests.antt =====
-- Instances of the theorems on pkg/service: a health server of one status, and connections to two
-- addresses.
use goico.Shared.{
  if◌then◌else◌, ℕ, ◌≡◌, refl, ◌≢◌, Bool, true, false, none, some, List, [], ◌∷◌, arith,
}
use goico.Shared.Key.{bytes_keys}
use goico.Shared.Result.{Result, ok}
use goico.Service.Health.{
  ServingStatus, serving, not_serving, unknown, HealthServer, healthcheck_it, healthcheck_done,
  healthcheck_lem,
}
use goico.Service.Http.{Outside, ServiceOptions, Service, NewError, options, new}
use goico.Service.Http.New.{is_ok, FitsIfOk, new_lem}
use goico.Shared.Outcome.{returns}
use goico.Service.Base.{Base, new_base}
use goico.Service.Conn.{
  new_buf_conn, new_buf_conn-IsSound, listen, dial, new_http_client, close, meet,
}

-- The statuses, and whether the server is shut down.
abbrev set_one : List ℕ → ServingStatus → (ServingStatus × Bool) → ServingStatus × Bool
set_one n v (w, true) = (w, true)
set_one n v (w, false) = (v, false)

status_of-set_one :
    (n : List ℕ) (v : ServingStatus) (s : ServingStatus × Bool)
    → s.1 ≡ false
    → (some (set_one n v s).0 ≡ some v) × ((set_one n v s).1 ≡ false)
status_of-set_one n v (w, true) h = absurd (cc)
status_of-set_one n v (w, false) h = (refl, refl)

set_one-shut :
    (n : List ℕ) (v : ServingStatus) (s : ServingStatus × Bool) → s.1 ≡ true → set_one n v s ≡ s
set_one-shut n v (w, true) h = refl
set_one-shut n v (w, false) h = absurd (cc)

-- One status for every name
abbrev one_status : HealthServer
one_status = record {
  Srv = ServingStatus × Bool;
  status_of = λ n s. some s.0;
  is_shut = λ s. s.1;
  set_serving_status = set_one;
  shutdown = λ s. (not_serving, true);
  status_of-set = status_of-set_one;
  set_shut = set_one-shut;
  status_of-shutdown = λ n v s h. refl;
  is_shut-shutdown = λ s. refl;
}

healthcheck_lem_example :
    ((healthcheck_it one_status [] true (false ∷ []) (unknown, false)).0 ≡ serving)
    × (some (healthcheck_it one_status [] true (false ∷ []) (unknown, false)).1.0 ≡ some serving)
    × (some (healthcheck_done one_status [] true (false ∷ []) (unknown, false)).0
        ≡ some not_serving)
healthcheck_lem_example = healthcheck_lem one_status [] true (false ∷ []) (unknown, false) refl

meet_example :
    (l : ℕ) × (k : ℕ) × (n : ℕ) × ((listen {X = ℕ} (1 ∷ []) new_buf_conn).0 ≡ ok l)
    × ((dial {X = ℕ} none (1 ∷ []) (listen {X = ℕ} (1 ∷ []) new_buf_conn).1).0 ≡ ok l)
    × ((dial {X = ℕ} none (1 ∷ []) new_buf_conn).0 ≡ ok l)
    × ((new_http_client {X = ℕ} (1 ∷ []) (dial {X = ℕ} none (1 ∷ []) new_buf_conn).1).0 ≡ ok l)
    × ((listen {X = ℕ} (2 ∷ []) (listen {X = ℕ} (1 ∷ []) new_buf_conn).1).0 ≡ ok k)
    × (k ≢ l)
    × ((listen {X = ℕ}
          (1 ∷ [])
          (close {X = ℕ} none (1 ∷ []) (listen {X = ℕ} (1 ∷ []) new_buf_conn).1).1).0
        ≡ ok n)
    × (n ≢ l)
meet_example = meet [] [] 1 2 new_buf_conn new_buf_conn-IsSound (λ e. absurd (ground (arith, e)))

-- Bases are numbers that can always be made; profiling is on, at an address.
abbrev all_goes_well : Outside ℕ ℕ ℕ ℕ ℕ
all_goes_well = record {
  ctx_of = λ b. 0;
  new_base = λ name addr ctx sidecar. returns (ok (if sidecar then 2 else 1));
  background = 0;
  default_listener = 7;
  metadata_enabled = true;
  metadata_enabled_sidecar = false;
}

abbrev profiled : List (ServiceOptions ℕ ℕ ℕ ℕ ℕ → ServiceOptions ℕ ℕ ℕ ℕ ℕ)
profiled =
    (λ o. record o { profiling_enabled = true })
    ∷ (λ o. record o { pprof_addr = some (58 ∷ []) })
    ∷ []

new_lem_example :
    (r : Result (NewError ℕ ℕ ℕ ℕ ℕ) (Service ℕ ℕ ℕ ℕ ℕ)) × (new all_goes_well profiled ≡ returns r)
    × (is_ok r ≡ true)
    × FitsIfOk all_goes_well (options all_goes_well profiled) r
new_lem_example =
    new_lem all_goes_well profiled (λ c. none) (ok 1) (λ a. ok 2) refl refl (λ a. refl)

abbrev a_service : Base
a_service = new_base (97 ∷ []) [] (58 ∷ [])
