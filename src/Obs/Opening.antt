-- ===== src/Obs/Opening.antt =====
-- What New of pkg/service/obs/otel.go opens when nothing fails.
use goico.Shared.{
  ◌≡◌, refl, sym, ap, ◌∙◌, Bool, true, false, Option, none, some, List, [], ◌∷◌, ◌++◌,
  if◌then◌else◌,
}
use mathlib.Core.List.{append-nil, append_assoc}
use goico.Env.Os.{Text}
use goico.Obs.Config.{Config}
use goico.Obs.Setup.{
  Exporter, to_stdout, to_grpc, to_http, Held, nothing, returns, ◌>>◌, Answers, open_stdout, traces,
  metrics, start_if, set_up, new,
}

abbrev pub grpc_of : Option Text → List Exporter
grpc_of none = []
grpc_of (some a) = to_grpc a ∷ []

abbrev pub http_of : Option Text → List Exporter
http_of none = []
http_of (some a) = to_http a ∷ []

abbrev pub stdout_of : Bool → List Exporter
stdout_of on = if on then to_stdout ∷ [] else []

abbrev pub address_of : Option Text → List Text
address_of none = []
address_of (some a) = a ∷ []

-- The exporters of a provider, if it has an address
abbrev pub provider_of : Bool → Option Text → Option Text → Option (List Exporter)
provider_of stdout none none = none
provider_of stdout grpc http = some (stdout_of stdout ++ grpc_of grpc ++ http_of http)

-- The state after the part for traces
traced : Option Text → Option Text → Held → Held
traced none none h = h
traced grpc http h = record h {
  batches = h.batches ++ grpc_of grpc ++ http_of http;
  connections = h.connections ++ address_of grpc;
  trace_provider = some (h.batches ++ grpc_of grpc ++ http_of http);
}

-- The state after the part for metrics
metered : Option Text → Option Text → Held → Held
metered none none h = h
metered grpc http h = record h {
  exporters = h.exporters ++ grpc_of grpc ++ http_of http;
  connections = h.connections ++ address_of grpc;
  meter_provider = some (h.exporters ++ grpc_of grpc ++ http_of http);
}

abbrev stdout_held : Bool → Held
stdout_held on = record nothing { batches = stdout_of on; exporters = stdout_of on }

-- What is open before the starts
pub opened : Config → Held
opened cfg =
    metered cfg.metrics_grpc cfg.metrics_http
      (traced cfg.trace_grpc cfg.trace_http (stdout_held cfg.stdout))

traced_lem :
    (stdout : Bool) (grpc http : Option Text)
    → let h = traced grpc http (stdout_held stdout) in
      (h.trace_provider ≡ provider_of stdout grpc http)
      × (h.exporters ≡ stdout_of stdout)
      × (h.connections ≡ address_of grpc)
      × (h.meter_provider ≡ none)
      × (h.shut ≡ [])
unfolding traced
traced_lem stdout none none = (refl, refl, refl, refl, refl)
traced_lem stdout none (some y) = (refl, refl, refl, refl, refl)
traced_lem stdout (some x) none = (refl, refl, refl, refl, refl)
traced_lem stdout (some x) (some y) = (refl, refl, refl, refl, refl)

metered_lem :
    (stdout : Bool) (grpc http : Option Text) (h : Held)
    → h.exporters ≡ stdout_of stdout
    → h.meter_provider ≡ none
    → let h' = metered grpc http h in
      (h'.meter_provider ≡ provider_of stdout grpc http)
      × (h'.trace_provider ≡ h.trace_provider)
      × (h'.connections ≡ h.connections ++ address_of grpc)
      × (h'.shut ≡ h.shut)
unfolding metered
metered_lem stdout none none h exps unmade = (unmade, refl, sym (append-nil h.connections), refl)
metered_lem stdout none (some y) h exps unmade = (simp (exps), refl, refl, refl)
metered_lem stdout (some x) none h exps unmade = (simp (exps), refl, refl, refl)
metered_lem stdout (some x) (some y) h exps unmade = (simp (exps), refl, refl, refl)

pub opened_lem :
    (cfg : Config)
    → ((opened cfg).trace_provider ≡ provider_of cfg.stdout cfg.trace_grpc cfg.trace_http)
      × ((opened cfg).meter_provider ≡ provider_of cfg.stdout cfg.metrics_grpc cfg.metrics_http)
      × ((opened cfg).shut ≡ [])
      × ((opened cfg).connections ≡ address_of cfg.trace_grpc ++ address_of cfg.metrics_grpc)
unfolding opened
opened_lem cfg =
    let (tracer_made, exps, connected, unmade, unshut) =
      traced_lem cfg.stdout cfg.trace_grpc cfg.trace_http in
    let (meter_made, same, connected', shut_same) =
      metered_lem cfg.stdout cfg.metrics_grpc cfg.metrics_http
        (traced cfg.trace_grpc cfg.trace_http (stdout_held cfg.stdout)) exps unmade in
    (
      same ∙ tracer_made,
      meter_made,
      shut_same ∙ unshut,
      connected' ∙ ap (λ c. c ++ address_of cfg.metrics_grpc) connected,
    )

module _ {X : Type 0} (a : Answers X) where
  -- The exporters and connections can be opened.
  pub record Opens : Type 0 where
    pub resource_ok : a.resource ≡ none
    pub stdout_trace_ok : a.stdout_trace ≡ none
    pub stdout_metric_ok : a.stdout_metric ≡ none
    pub dial_ok : (addr : Text) → a.dial addr ≡ none
    pub trace_grpc_ok : a.otlp_trace_grpc ≡ none
    pub trace_http_ok : a.otlp_trace_http ≡ none
    pub metric_grpc_ok : a.otlp_metric_grpc ≡ none
    pub metric_http_ok : a.otlp_metric_http ≡ none

  module _ (o : Opens) where
    open_stdout_lem :
        (on : Bool)
        → open_stdout a on nothing
          ≡ (returns tt, record nothing { batches = stdout_of on; exporters = stdout_of on })
    unfolding open_stdout
    open_stdout_lem false = refl
    open_stdout_lem true = simp (o.stdout_trace_ok, o.stdout_metric_ok)

    traces_lem :
        (grpc http : Option Text) (h : Held)
        → traces a grpc http h ≡ (returns tt, traced grpc http h)
    unfolding traces traced
    traces_lem none none h = refl
    traces_lem none (some y) h = simp (o.trace_http_ok, append-nil)
    traces_lem (some x) none h = simp (o.dial_ok x, o.trace_grpc_ok, append-nil)
    traces_lem (some x) (some y) h =
        simp (o.dial_ok x, o.trace_grpc_ok, o.trace_http_ok, append_assoc)

    metrics_lem :
        (grpc http : Option Text) (h : Held)
        → metrics a grpc http h ≡ (returns tt, metered grpc http h)
    unfolding metrics metered
    metrics_lem none none h = refl
    metrics_lem none (some y) h = simp (o.metric_http_ok, append-nil)
    metrics_lem (some x) none h = simp (o.dial_ok x, o.metric_grpc_ok, append-nil)
    metrics_lem (some x) (some y) h =
        simp (o.dial_ok x, o.metric_grpc_ok, o.metric_http_ok, append_assoc)

    set_up_lem :
        (cfg : Config)
        → set_up a cfg nothing
          ≡ (start_if a cfg.host a.host_start >> start_if a cfg.runtime a.runtime_start)
              (opened cfg)
    unfolding set_up opened
    set_up_lem cfg = simp (o.resource_ok, open_stdout_lem, traces_lem, metrics_lem)

    pub new-opened :
        (cfg : Config)
        → cfg.enabled ≡ true
        → new a cfg nothing
          ≡ (start_if a cfg.host a.host_start >> start_if a cfg.runtime a.runtime_start)
              (opened cfg)
    unfolding new
    new-opened cfg en = simp (en, set_up_lem cfg)
