-- ===== src/Cache/NewService.antt =====
-- pkg/service/grpc/cache/service.go: `NewService`, a gRPC service whose handler gives a cache's events.
use goico.Shared.{Bool, true, false, some, List, [], ◌∷◌, ◌++◌}
use goico.Env.Os.{Text, Environ}
use goico.Shared.Result.{ok}
use goico.Shared.Outcome.{Outcome, ◌>>=◌}
use goico.Service.Http.{Outside, apply_all}
use goico.Service.Grpc.{Made, new}
use goico.Service.Grpc.Setters.{
  with_name, with_listener, with_addr, with_context, with_service_desc, with_new_service_fn,
}
use goico.Service.Container.{addr_or_panic}

-- "cache_listener" and "cache_"
abbrev pub service_name : Text
service_name = 99 ∷ 97 ∷ 99 ∷ 104 ∷ 101 ∷ 95 ∷ 108 ∷ 105 ∷ 115 ∷ 116 ∷ 101 ∷ 110 ∷ 101 ∷ 114 ∷ []

abbrev pub name_prefix : Text
name_prefix = 99 ∷ 97 ∷ 99 ∷ 104 ∷ 101 ∷ 95 ∷ []

-- `server`, the handler, has no Close.
abbrev pub no_close : {Cache : Type 0} → Cache → Bool
no_close c = false

-- It implements the description, whose one method is Events.
abbrev pub serves_events : {Cache : Type 0} → Cache → Bool
serves_events c = true

module _ {Base Ctx Listener Health X Cache : Type 0} (outside : Outside Base Ctx Listener Health X)
    (grpc_metadata : Bool) (default_grpc_listener : Listener) where
  -- `NewService` of a cache with a name; a Setter sets the listener, as `WithGrpcConn` does.
  unfoldable pub new_service :
      Ctx
      → Text
      → Cache
      → List (Listener → Listener)
      → Environ
      → Outcome (Made {Handler = Cache} outside no_close serves_events grpc_metadata)
  unfolding addr_or_panic new
  new_service ctx name cache ops e = do
    a ← addr_or_panic service_name e
    new outside no_close serves_events grpc_metadata (
        with_name (name_prefix ++ name)
        ∷ with_listener (some (apply_all ops default_grpc_listener))
        ∷ with_addr a
        ∷ with_context ctx
        ∷ with_service_desc true
        ∷ with_new_service_fn (some (λ c. ok cache))
        ∷ [])
