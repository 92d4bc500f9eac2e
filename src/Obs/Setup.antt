-- ===== src/Obs/Setup.antt =====
-- pkg/service/obs/otel.go: New, which sets telemetry up as the environment says, and Shutdown. What
-- the exporters, connections and providers of OpenTelemetry answer is an input; the model keeps what
-- New has opened and shut down. Intervals and samplers are only handed over.
use goico.Shared.{Bool, true, false, Option, none, some, List, [], ◌∷◌, ◌++◌, if◌then◌else◌}
use goico.Env.Os.{Text}
use goico.Obs.Config.{Config}

-- An exporter, of traces or of metrics
pub data Exporter : Type 0 where
  to_stdout : Exporter
  to_grpc : Text → Exporter
  to_http : Text → Exporter

pub data Provider : Type 0 where
  tracer meter : Provider

-- What New has opened: exporters, connections, the providers with their exporters; and the providers
-- that it has shut down; shutdownFuncs holds the shutdowns of these providers.
pub record Held : Type 0 where
  pub batches : List Exporter
  pub exporters : List Exporter
  pub connections : List Text
  pub trace_provider : Option (List Exporter)
  pub meter_provider : Option (List Exporter)
  pub shut : List Provider
  pub shutdown_funcs : List Provider

abbrev pub nothing : Held
nothing = record {
  batches = [];
  exporters = [];
  connections = [];
  trace_provider = none;
  meter_provider = none;
  shut = [];
  shutdown_funcs = [];
}

-- How New goes on, or ends; calls_nil is a Shutdown through a nil tracer, where the library decides.
pub data Exit (X A : Type 0) : Type 0 where
  returns : A → Exit X A
  fails : X → Exit X A
  calls_nil : Exit X A

abbrev pub M : Type 0 → Type 0
M X = Held → Exit X (Unit {0}) × Held

abbrev pub next : {X : Type 0} → Exit X (Unit {0}) → M X → M X
next (returns u) m h = m h
next (fails x) m h = (fails x, h)
next calls_nil m h = (calls_nil, h)

infixl 5 ◌>>◌
abbrev pub ◌>>◌ : {X : Type 0} → M X → M X → M X
◌>>◌ m k h = next (m h).0 k (m h).1

-- What the libraries answer: an error, or none
pub record Answers (X : Type 0) : Type 0 where
  pub resource : Option X
  pub stdout_trace : Option X
  pub stdout_metric : Option X
  pub dial : Text → Option X
  pub otlp_trace_grpc : Option X
  pub otlp_trace_http : Option X
  pub otlp_metric_grpc : Option X
  pub otlp_metric_http : Option X
  pub host_start : Option X
  pub runtime_start : Option X

abbrev pub add_batch : Exporter → Held → Held
add_batch e h = record h { batches = h.batches ++ e ∷ [] }

abbrev pub add_exporter : Exporter → Held → Held
add_exporter e h = record h { exporters = h.exporters ++ e ∷ [] }

abbrev pub add_connection : Text → Held → Held
add_connection a h = record h { connections = h.connections ++ a ∷ [] }

-- The shutdown of a provider; of the tracer it is called through a pointer that may be nil.
abbrev pub shut_down : Provider → Held → Held
shut_down p h = record h { shut = h.shut ++ p ∷ [] }

abbrev pub shut_meter : Option (List Exporter) → Held → Held
shut_meter none h = h
shut_meter (some es) h = shut_down meter h

-- `handleErr`: the loop over shutdownFuncs, which are then dropped
unfoldable pub handle_err : Held → Held
handle_err h = record h { shut = h.shut ++ h.shutdown_funcs; shutdown_funcs = [] }

module _ {X : Type 0} where
  abbrev pub skip : M X
  skip h = (returns tt, h)

  -- The call of newResource, whose error New returns at once
  abbrev pub or_return : Option X → M X
  or_return none h = (returns tt, h)
  or_return (some x) h = (fails x, h)

  -- A call whose error New hands to handleErr and then returns
  abbrev pub try : Option X → (Held → Held) → M X
  try none f h = (returns tt, f h)
  try (some x) f h = (fails x, handle_err h)

  unfoldable pub fail_after : X → Option (List Exporter) → M X
  fail_after x none h = (calls_nil, h)
  fail_after x (some es) h = (fails x, shut_meter h.meter_provider (shut_down tracer h))

  -- host.Start and runtime.Start
  unfoldable pub start : Option X → M X
  unfolding fail_after
  start none h = (returns tt, h)
  start (some x) h = fail_after x h.trace_provider h

module _ {X : Type 0} (a : Answers X) where
  unfoldable pub open_stdout : Bool → M X
  open_stdout false = skip
  open_stdout true =
      try a.stdout_trace (add_batch to_stdout) >> try a.stdout_metric (add_exporter to_stdout)

  unfoldable pub open_trace_grpc : Option Text → M X
  open_trace_grpc none = skip
  open_trace_grpc (some addr) =
      try (a.dial addr) (add_connection addr) >> try a.otlp_trace_grpc (add_batch (to_grpc addr))

  unfoldable pub open_trace_http : Option Text → M X
  open_trace_http none = skip
  open_trace_http (some addr) = try a.otlp_trace_http (add_batch (to_http addr))

  -- newTraceProviderArr never fails.
  unfoldable pub make_tracer : M X
  make_tracer h = (returns tt, record h { trace_provider = some h.batches })

  -- The part for traces: without an address it only warns.
  unfoldable pub traces : Option Text → Option Text → M X
  unfolding open_trace_grpc open_trace_http make_tracer
  traces none none = skip
  traces grpc http = open_trace_grpc grpc >> open_trace_http http >> make_tracer

  unfoldable pub open_metric_grpc : Option Text → M X
  open_metric_grpc none = skip
  open_metric_grpc (some addr) =
      try (a.dial addr) (add_connection addr)
      >> try a.otlp_metric_grpc (add_exporter (to_grpc addr))

  unfoldable pub open_metric_http : Option Text → M X
  open_metric_http none = skip
  open_metric_http (some addr) = try a.otlp_metric_http (add_exporter (to_http addr))

  -- newMeterProviderArr never fails.
  unfoldable pub make_meter : M X
  make_meter h = (returns tt, record h { meter_provider = some h.exporters })

  -- The part for metrics
  unfoldable pub metrics : Option Text → Option Text → M X
  unfolding open_metric_grpc open_metric_http make_meter
  metrics none none = skip
  metrics grpc http = open_metric_grpc grpc >> open_metric_http http >> make_meter

  unfoldable pub start_if : Bool → Option X → M X
  unfolding start
  start_if false answer = skip
  start_if true answer = start answer

  -- New, once telemetry is enabled
  unfoldable pub set_up : Config → M X
  unfolding open_stdout traces metrics start_if
  set_up cfg =
      or_return a.resource
      >> open_stdout cfg.stdout
      >> traces cfg.trace_grpc cfg.trace_http
      >> metrics cfg.metrics_grpc cfg.metrics_http
      >> start_if cfg.host a.host_start
      >> start_if cfg.runtime a.runtime_start

  -- `New`: whether the provider is enabled
  unfoldable pub new : Config → M X
  unfolding set_up
  new cfg = if cfg.enabled then set_up cfg else skip

-- `Shutdown`, by what the providers answer: the errors, joined
abbrev pub error_of : {X : Type 0} → Option (List Exporter) → Option X → List X
error_of none answer = []
error_of (some es) none = []
error_of (some es) (some x) = x ∷ []

unfoldable pub shutdown : {X : Type 0} → Option X → Option X → Held → List X
shutdown of_tracer of_meter h =
    error_of h.meter_provider of_meter ++ error_of h.trace_provider of_tracer
