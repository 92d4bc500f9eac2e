-- ===== src/Service/Grpc/Tests.antt =====
-- The theorem on New of pkg/service/grpc/service.go at a handler that is its address.
use goico.Shared.{ℕ, Bool, true, false, some, List, [], ◌∷◌}
use goico.Shared.Result.{Result, ok, err}
use goico.Shared.Outcome.{Outcome, returns}
use goico.Service.Http.{Outside}
use goico.Service.Grpc.{Options}
use goico.Service.Grpc.Setters.{
  with_name, with_listener, with_addr, with_context, with_service_desc, with_new_service_fn,
  with_health_check_fn, with_profiling_enabled, with_pprof_addr,
}

-- A base is its context; a service without an address has none.
abbrev base_of : List ℕ → List ℕ → ℕ → Bool → Outcome (Result ℕ ℕ)
base_of name [] ctx side = returns (err 1)
base_of name (c ∷ a) ctx side = returns (ok c)

abbrev outside : Outside ℕ ℕ ℕ ℕ ℕ
outside = record {
  ctx_of = λ b. b;
  new_base = base_of;
  background = 0;
  default_listener = 7;
  metadata_enabled = false;
  metadata_enabled_sidecar = false;
}

abbrev echo : List (Options ℕ ℕ ℕ ℕ ℕ ℕ → Options ℕ ℕ ℕ ℕ ℕ ℕ)
echo =
    with_name (101 ∷ [])
    ∷ with_addr (58 ∷ [])
    ∷ with_context 3
    ∷ with_listener (some 9)
    ∷ with_health_check_fn (some 4)
    ∷ with_service_desc true
    ∷ with_new_service_fn (some (λ c. ok c))
    ∷ with_profiling_enabled true
    ∷ with_pprof_addr (some (59 ∷ []))
    ∷ []

-- The base of the sidecar
abbrev side_of : List ℕ → Result ℕ ℕ
side_of [] = err 1
side_of (c ∷ a) = ok c
