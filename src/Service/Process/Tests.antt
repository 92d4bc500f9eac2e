-- ===== src/Service/Process/Tests.antt =====
-- The theorems on DoServeWithDelay of pkg/service/process/service.go at a process that ends at once.
use goico.Shared.{ℕ, ◌≤◌, ◌≡◌, refl, ◌⊎◌, true, false, none, some, List, [], ◌∷◌}
use goico.Service.Base.{Base, new_base, status_of, string_of, status_stopped, status_started}
use goico.Service.Process.Early.{serve_left}
use goico.Service.Process.{
  sleeping, left, done, Serving, Event, wakes, checks, stops, leaves, sets_started, start_returns,
  serve_fails, serve_closes, begin, step, run, is_done,
}
use goico.Service.Process.Serve.{own_steps, is_own, serve_ends, serve_stopped}

abbrev daemon : Base
daemon = new_base (97 ∷ []) [] (58 ∷ [])

abbrev events : List (Event ℕ)
events =
    wakes
    ∷ checks
    ∷ sets_started 5
    ∷ start_returns (some 2)
    ∷ stops
    ∷ serve_closes none
    ∷ leaves
    ∷ []

abbrev ended : Serving ℕ
ended = record {
  base = record daemon { status = status_stopped; start_time = 0; cancelled = true };
  starter = done;
  sidecar = left;
  starts = 1;
  result = some 2;
}

runs : run events (begin daemon) ≡ some ended
unfolding run new_base
runs = refl

serve_ends_example :
    (own_steps events ≤ 7)
    × ((is_done ended ≡ true)
        ⊎ ((e : Event ℕ) × (s' : Serving ℕ) × (is_own e ≡ true) × (step e ended ≡ some s')))
serve_ends_example = serve_ends daemon events ended runs

not_cancelled : daemon.cancelled ≡ false
unfolding new_base
not_cancelled = refl

serve_stopped_example :
    (status_of ended.base ≡ (string_of status_stopped, 0))
    × (ended.base.cancelled ≡ true)
    × (ended.starts ≡ 1)
serve_stopped_example = serve_stopped daemon events ended not_cancelled refl runs refl

-- The sidecar's server fails at once.
abbrev failing : List (Event ℕ)
failing = serve_fails 6 ∷ leaves ∷ []

abbrev alone : Serving ℕ
alone = record {
  base = record daemon { status = status_stopped; start_time = 0 };
  starter = sleeping;
  sidecar = left;
  starts = 0;
  result = none;
}

abbrev going_on : List (Event ℕ)
going_on = wakes ∷ checks ∷ sets_started 5 ∷ start_returns none ∷ stops ∷ []

abbrev misreported : Serving ℕ
misreported = record {
  base = record daemon { status = status_started; start_time = 5; cancelled = true };
  starter = done;
  sidecar = left;
  starts = 1;
  result = none;
}

fails_at_once : run failing (begin daemon) ≡ some alone
unfolding run new_base
fails_at_once = refl

goes_on_alone : run going_on alone ≡ some misreported
unfolding run new_base
goes_on_alone = refl

serve_left_example :
    (status_of misreported.base ≡ (string_of status_started, 5))
    × (misreported.base.cancelled ≡ true)
    × (misreported.starts ≡ 1)
serve_left_example =
    serve_left daemon failing going_on alone misreported not_cancelled refl refl fails_at_once refl
      refl goes_on_alone refl
