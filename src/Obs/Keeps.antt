-- ===== src/Obs/Keeps.antt =====
-- What New of pkg/service/obs/otel.go shuts down when it fails.
use goico.Shared.{
  ◌≡◌, refl, ap, ◌∙◌, inl, inr, Bool, true, false, Option, none, some, [], ◌++◌, arith, Bool-cases,
}
use mathlib.Core.List.{append-nil}
use goico.Env.Os.{Text}
use goico.Obs.Config.{Config}
use goico.Obs.Setup.{
  to_stdout, to_grpc, to_http, Held, nothing, Exit, returns, fails, calls_nil, M, next, ◌>>◌,
  Answers, skip, try, or_return, handle_err, add_batch, add_exporter, add_connection, start,
  open_stdout, open_trace_grpc, open_trace_http, make_tracer, traces, open_metric_grpc,
  open_metric_http, make_meter, metrics, start_if, set_up, new,
}

module _ {X : Type 0} (a : Answers X) where
  -- No provider is shut down, and none is put among the shutdown functions.
  Kept : Held → Held → Type 0
  Kept h k = (k.shut ≡ h.shut) × (k.shutdown_funcs ≡ [])

  Keeps : M X → Type 0
  Keeps m = (h : Held) → h.shutdown_funcs ≡ [] → Kept h (m h).1

  -- A step that leaves both lists alone
  Untouching : (Held → Held) → Type 0
  Untouching f = (h : Held) → ((f h).shut ≡ h.shut) × ((f h).shutdown_funcs ≡ h.shutdown_funcs)

  next-Keeps :
      (e : Exit X (Unit {0})) (k : M X)
      → Keeps k
      → (h : Held) → h.shutdown_funcs ≡ []
      → Kept h (next e k h).1
  unfolding Keeps Kept
  next-Keeps (returns u) k kk h none_set = kk h none_set
  next-Keeps (fails x) k kk h none_set = (refl, none_set)
  next-Keeps calls_nil k kk h none_set = (refl, none_set)

  then-Keeps : (m k : M X) → Keeps m → Keeps k → Keeps (m >> k)
  unfolding Keeps Kept
  then-Keeps m k km kk h none_set =
      let (same, none_set') = km h none_set in
      let (same', none_set'') = next-Keeps (m h).0 k kk (m h).1 none_set' in
      (same' ∙ same, none_set'')

  try-Keeps : (r : Option X) (f : Held → Held) → Untouching f → Keeps (try r f)
  unfolding Keeps Kept Untouching
  try-Keeps none f kf h none_set = ((kf h).0, (kf h).1 ∙ none_set)
  try-Keeps (some x) f kf h none_set =
      unfold handle_err in (ap (λ fs. h.shut ++ fs) none_set ∙ append-nil h.shut, refl)

  or_return-Keeps : (r : Option X) → Keeps (or_return r)
  unfolding Keeps Kept
  or_return-Keeps none h none_set = (refl, none_set)
  or_return-Keeps (some x) h none_set = (refl, none_set)

  skip-Keeps : Keeps skip
  unfolding Keeps Kept
  skip-Keeps h none_set = (refl, none_set)

  -- Two calls whose errors New returns
  tries-Keeps :
      (r r' : Option X) (f f' : Held → Held)
      → Untouching f
      → Untouching f'
      → Keeps (try r f >> try r' f')
  tries-Keeps r r' f f' kf kf' =
      then-Keeps (try r f) (try r' f') (try-Keeps r f kf) (try-Keeps r' f' kf')

  open_stdout-Keeps : (on : Bool) → Keeps (open_stdout a on)
  unfolding open_stdout Untouching
  open_stdout-Keeps false = skip-Keeps
  open_stdout-Keeps true =
      tries-Keeps a.stdout_trace a.stdout_metric (add_batch to_stdout) (add_exporter to_stdout)
        (λ h. (refl, refl)) (λ h. (refl, refl))

  open_trace_grpc-Keeps : (g : Option Text) → Keeps (open_trace_grpc a g)
  unfolding open_trace_grpc Untouching
  open_trace_grpc-Keeps none = skip-Keeps
  open_trace_grpc-Keeps (some x) =
      tries-Keeps (a.dial x) a.otlp_trace_grpc (add_connection x) (add_batch (to_grpc x))
        (λ h. (refl, refl)) (λ h. (refl, refl))

  open_trace_http-Keeps : (g : Option Text) → Keeps (open_trace_http a g)
  unfolding open_trace_http Untouching
  open_trace_http-Keeps none = skip-Keeps
  open_trace_http-Keeps (some x) =
      try-Keeps a.otlp_trace_http (add_batch (to_http x)) (λ h. (refl, refl))

  open_metric_grpc-Keeps : (g : Option Text) → Keeps (open_metric_grpc a g)
  unfolding open_metric_grpc Untouching
  open_metric_grpc-Keeps none = skip-Keeps
  open_metric_grpc-Keeps (some x) =
      tries-Keeps (a.dial x) a.otlp_metric_grpc (add_connection x) (add_exporter (to_grpc x))
        (λ h. (refl, refl)) (λ h. (refl, refl))

  open_metric_http-Keeps : (g : Option Text) → Keeps (open_metric_http a g)
  unfolding open_metric_http Untouching
  open_metric_http-Keeps none = skip-Keeps
  open_metric_http-Keeps (some x) =
      try-Keeps a.otlp_metric_http (add_exporter (to_http x)) (λ h. (refl, refl))

  three-Keeps : (m k l : M X) → Keeps m → Keeps k → Keeps l → Keeps (m >> k >> l)
  three-Keeps m k l km kk kl = then-Keeps (m >> k) l (then-Keeps m k km kk) kl

  make_tracer-Keeps : Keeps (make_tracer a)
  unfolding Keeps Kept make_tracer
  make_tracer-Keeps h none_set = (refl, none_set)

  make_meter-Keeps : Keeps (make_meter a)
  unfolding Keeps Kept make_meter
  make_meter-Keeps h none_set = (refl, none_set)

  tracing-Keeps :
      (g t : Option Text) → Keeps (open_trace_grpc a g >> open_trace_http a t >> make_tracer a)
  tracing-Keeps g t =
      three-Keeps (open_trace_grpc a g) (open_trace_http a t) (make_tracer a)
        (open_trace_grpc-Keeps g) (open_trace_http-Keeps t) make_tracer-Keeps

  metering-Keeps :
      (g t : Option Text) → Keeps (open_metric_grpc a g >> open_metric_http a t >> make_meter a)
  metering-Keeps g t =
      three-Keeps (open_metric_grpc a g) (open_metric_http a t) (make_meter a)
        (open_metric_grpc-Keeps g) (open_metric_http-Keeps t) make_meter-Keeps

  traces-Keeps : (g t : Option Text) → Keeps (traces a g t)
  unfolding traces
  traces-Keeps none none = skip-Keeps
  traces-Keeps none (some y) = tracing-Keeps none (some y)
  traces-Keeps (some x) t = tracing-Keeps (some x) t

  metrics-Keeps : (g t : Option Text) → Keeps (metrics a g t)
  unfolding metrics
  metrics-Keeps none none = skip-Keeps
  metrics-Keeps none (some y) = metering-Keeps none (some y)
  metrics-Keeps (some x) t = metering-Keeps (some x) t

  opening-Keeps :
      (cfg : Config)
      → Keeps (
          or_return a.resource
          >> open_stdout a cfg.stdout
          >> traces a cfg.trace_grpc cfg.trace_http
          >> metrics a cfg.metrics_grpc cfg.metrics_http)
  opening-Keeps cfg =
      then-Keeps _ (metrics a cfg.metrics_grpc cfg.metrics_http)
        (three-Keeps (or_return a.resource) (open_stdout a cfg.stdout)
          (traces a cfg.trace_grpc cfg.trace_http) (or_return-Keeps a.resource)
          (open_stdout-Keeps cfg.stdout) (traces-Keeps cfg.trace_grpc cfg.trace_http))
        (metrics-Keeps cfg.metrics_grpc cfg.metrics_http)

  start-Keeps : (on : Bool) (answer : Option X) → answer ≡ none → Keeps (start_if a on answer)
  unfolding Keeps Kept start_if start
  start-Keeps false answer eq h none_set = (refl, none_set)
  start-Keeps true none eq h none_set = (refl, none_set)
  start-Keeps true (some x) eq h none_set = ground arith

  set_up-Keeps :
      (cfg : Config) → a.host_start ≡ none → a.runtime_start ≡ none → Keeps (set_up a cfg)
  unfolding set_up
  set_up-Keeps cfg hs rs =
      three-Keeps _ (start_if a cfg.host a.host_start) (start_if a cfg.runtime a.runtime_start)
        (opening-Keeps cfg) (start-Keeps cfg.host a.host_start hs)
        (start-Keeps cfg.runtime a.runtime_start rs)

  -- Unless the start of the host or the runtime metrics fails, New shuts no provider down, although
  -- handleErr runs the shutdown functions after most errors: none is ever put among them. So when a
  -- metrics exporter cannot be opened, the tracer that was made stays open.
  pub new_shuts :
      (cfg : Config)
      → a.host_start ≡ none
      → a.runtime_start ≡ none
      → ((new a cfg nothing).1.shut ≡ []) × ((new a cfg nothing).1.shutdown_funcs ≡ [])
  unfolding new Keeps Kept
  new_shuts cfg hs rs = elim (Bool-cases cfg.enabled) [
    | inl on ↦ rw on (set_up-Keeps cfg hs rs nothing refl)
    | inr off ↦ rw off (refl, refl)
  ]
