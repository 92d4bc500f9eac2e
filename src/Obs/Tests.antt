-- ===== src/Obs/Tests.antt =====
-- The theorems on pkg/service/obs/otel.go at an environment with an address for traces and one for
-- metrics.
use goico.Shared.{ℕ, ◌≡◌, refl, true, none, some, [], ◌∷◌, ◌++◌}
use goico.Env.Os.{Text, Environ}
use goico.Shared.GoMap.{lookup}
use goico.Obs.Config.{
  config_of, var_enabled, var_stdout, var_trace_grpc, var_metrics_http, var_runtime,
}
use goico.Obs.Setup.{to_stdout, to_grpc, tracer, meter, nothing, fails, Answers, handle_err, new}
use goico.Obs.Opening.{provider_of, address_of, Opens}
use goico.Obs.New.{ending, first_error, otel_new_lem}
use goico.Obs.Keeps.{new_shuts}

-- "t", "h:1", "h:2"
abbrev yes : Text
yes = 116 ∷ []

abbrev traces_host : Text
traces_host = 104 ∷ 58 ∷ 49 ∷ []

abbrev metrics_host : Text
metrics_host = 104 ∷ 58 ∷ 50 ∷ []

abbrev environ : Environ
environ =
    (var_enabled, yes)
    ∷ (var_stdout, yes)
    ∷ (var_trace_grpc, traces_host)
    ∷ (var_metrics_http, metrics_host)
    ∷ (var_runtime, yes)
    ∷ []

-- The runtime metrics cannot be started.
abbrev no_runtime : Answers ℕ
no_runtime = record {
  resource = none;
  stdout_trace = none;
  stdout_metric = none;
  dial = λ addr. none;
  otlp_trace_grpc = none;
  otlp_trace_http = none;
  otlp_metric_grpc = none;
  otlp_metric_http = none;
  host_start = none;
  runtime_start = some 9;
}

opens : Opens no_runtime
opens = record {
  resource_ok = refl;
  stdout_trace_ok = refl;
  stdout_metric_ok = refl;
  dial_ok = λ addr. refl;
  trace_grpc_ok = refl;
  trace_http_ok = refl;
  metric_grpc_ok = refl;
  metric_http_ok = refl;
}

environ_enables : (config_of environ).enabled ≡ true
unfolding config_of lookup
environ_enables = refl

otel_new_lem_example :
    let cfg = config_of environ in
    let res = new no_runtime cfg nothing in
    ((res.0, res.1.shut)
      ≡ ending
          (first_error cfg.host cfg.runtime none (some 9))
          (provider_of cfg.stdout cfg.trace_grpc cfg.trace_http)
          (provider_of cfg.stdout cfg.metrics_grpc cfg.metrics_http))
    × (res.1.trace_provider ≡ provider_of cfg.stdout cfg.trace_grpc cfg.trace_http)
    × (res.1.meter_provider ≡ provider_of cfg.stdout cfg.metrics_grpc cfg.metrics_http)
    × (res.1.connections ≡ address_of cfg.trace_grpc ++ address_of cfg.metrics_grpc)
otel_new_lem_example = otel_new_lem no_runtime (config_of environ) opens environ_enables

new_ends_test :
    (let cfg = config_of environ in
      ending {X = ℕ}
        (first_error cfg.host cfg.runtime none (some 9))
        (provider_of cfg.stdout cfg.trace_grpc cfg.trace_http)
        (provider_of cfg.stdout cfg.metrics_grpc cfg.metrics_http))
    ≡ (fails 9, tracer ∷ meter ∷ [])
unfolding config_of lookup
new_ends_test = refl

-- The exporter of metrics cannot be made.
abbrev no_metrics : Answers ℕ
no_metrics = record no_runtime { otlp_metric_http = some 7; runtime_start = none }

new_shuts_example :
    ((new no_metrics (config_of environ) nothing).1.shut ≡ [])
    × ((new no_metrics (config_of environ) nothing).1.shutdown_funcs ≡ [])
new_shuts_example = new_shuts no_metrics (config_of environ) refl refl

new_leaves_test :
    let res = new no_metrics (config_of environ) nothing in
    (res.0 ≡ fails 7)
    × (res.1.trace_provider ≡ some (to_stdout ∷ to_grpc traces_host ∷ []))
    × (res.1.connections ≡ traces_host ∷ [])
unfolding config_of new lookup handle_err
new_leaves_test = (refl, refl, refl)
