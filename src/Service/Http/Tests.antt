-- ===== src/Service/Http/Tests.antt =====
-- The theorems on the handlers of pkg/service/http at a service whose health check fails.
use goico.Shared.{ℕ, ◌≤◌, ◌≡◌, refl, Bool, true, false, some, List, [], ◌∷◌, length, take, drop}
use goico.Env.Os.{Text}
use goico.Shared.Result.{Result, ok}
use goico.Service.Http.{Server}
use goico.Service.Http.Handlers.{
  new_writer, panicked, HealthStatus, Checked, write_header, json_type_upper, delivered,
  try_to_recover, health_check_handler, health_check_handler_lem,
}
use goico.Service.Http.Recover.{Frame, walk, behind_panics, walk_lem}

abbrev server : Bool → Server ℕ ℕ ℕ ℕ ℕ
server tells = record {
  base = 1;
  imsidecar = false;
  listener = 2;
  health_check_func = some 4;
  routes = [];
  tells_status = tells;
}

abbrev fails : ℕ → Checked ℕ
fails f = (f, true)

abbrev encode : HealthStatus ℕ → Result ℕ Text
encode s = ok (123 ∷ s.details ∷ 125 ∷ [])

health_check_handler_lem_example :
    let (logged, answer) =
      try_to_recover (health_check_handler (server true) fails encode ([], 9) new_writer) in
    let (logged', answer') =
      try_to_recover (health_check_handler (server false) fails encode ([], 9) new_writer) in
    ((logged ≡ false) × (delivered answer ≡ (500, json_type_upper, 123 ∷ 4 ∷ 125 ∷ [])))
    × ((logged' ≡ true) × (delivered answer' ≡ (500, json_type_upper, [])))
    × (try_to_recover (panicked (write_header 404 new_writer))
        ≡ (true, write_header 404 new_writer))
health_check_handler_lem_example =
    health_check_handler_lem (server true) (server false) 4 fails encode [] 9 404
      (write_header 404 new_writer) refl refl refl refl refl

-- "runtime.gopanic", "main.f", "main.main"
abbrev frames : List Frame
frames =
    record {
      function =
          114 ∷ 117 ∷ 110 ∷ 116 ∷ 105 ∷ 109 ∷ 101 ∷ 46 ∷ 103 ∷ 111 ∷ 112 ∷ 97 ∷ 110 ∷ 105 ∷ 99 ∷ [];
      text = [];
    }
    ∷ record { function = 109 ∷ 97 ∷ 105 ∷ 110 ∷ 46 ∷ 102 ∷ []; text = [] }
    ∷ record { function = 109 ∷ 97 ∷ 105 ∷ 110 ∷ 46 ∷ 109 ∷ 97 ∷ 105 ∷ 110 ∷ []; text = [] }
    ∷ []

walk_lem_example : (walk frames ≡ take 40 (behind_panics frames)) × (length (walk frames) ≤ 40)
walk_lem_example = walk_lem frames

-- Only "main.main" is listed.
walk_runs : walk frames ≡ drop 2 frames
unfolding walk
walk_runs = refl
