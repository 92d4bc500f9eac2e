-- ===== src/Obs/New.antt =====
-- How New of pkg/service/obs/otel.go ends when everything can be opened.
use goico.Shared.{
  ◌≡◌, refl, sym, ap, ◌∙◌, Bool, true, false, Option, none, some, List, [], ◌∷◌, ◌++◌,
}
use mathlib.Core.Path.{subst}
use goico.Env.Os.{Text}
use goico.Obs.Config.{Config}
use goico.Obs.Setup.{
  Exporter, Provider, tracer, meter, Held, nothing, Exit, returns, fails, calls_nil, M, next, ◌>>◌,
  Answers, fail_after, start, start_if, new,
}
use goico.Obs.Opening.{provider_of, address_of, Opens, opened, opened_lem, new-opened}

abbrev pub meter_if : Option (List Exporter) → List Provider
meter_if none = []
meter_if (some es) = meter ∷ []

-- The error of the first start that fails
abbrev pub first_error : {X : Type 0} → Bool → Bool → Option X → Option X → Option X
first_error true on (some x) r = some x
first_error true false none r = none
first_error true true none r = r
first_error false false r r' = none
first_error false true r r' = r'

-- The end of New after the error of a start, if any: its result and the providers that are shut down
abbrev pub ending :
    {X : Type 0}
    → Option X
    → Option (List Exporter)
    → Option (List Exporter)
    → Exit X (Unit {0}) × List Provider
ending none t m = (returns tt, [])
ending (some x) none m = (calls_nil, [])
ending (some x) (some es) m = (fails x, tracer ∷ meter_if m)

module _ {X : Type 0} (a : Answers X) where
  -- Where a start leads, from a state with these providers
  Leads : Held → Exit X (Unit {0}) × Held → Option X → Type 0
  Leads h res err =
      ((res.0, res.1.shut) ≡ ending err h.trace_provider h.meter_provider)
      × (res.1.trace_provider ≡ h.trace_provider)
      × (res.1.meter_provider ≡ h.meter_provider)
      × (res.1.connections ≡ h.connections)

  returned : (h : Held) → h.shut ≡ [] → Leads h (returns tt, h) none
  unfolding Leads
  returned h eq = (ap (λ s. (returns tt, s)) eq, refl, refl, refl)

  held :
      List Exporter
      → List Exporter
      → List Text
      → Option (List Exporter)
      → Option (List Exporter)
      → List Provider
      → List Provider
      → Held
  held b e c t m s d = record {
    batches = b;
    exporters = e;
    connections = c;
    trace_provider = t;
    meter_provider = m;
    shut = s;
    shutdown_funcs = d;
  }

  fail_lem :
      (x : X) (b e : List Exporter) (c : List Text) (t m : Option (List Exporter))
      (s d : List Provider)
      → s ≡ []
      → Leads (held b e c t m s d) (fail_after x t (held b e c t m s d)) (some x)
  unfolding Leads fail_after held
  fail_lem x b e c none m s d eq = (ap (λ s. (calls_nil, s)) eq, refl, refl, refl)
  fail_lem x b e c (some es) none s d eq =
      (ap (λ s. (fails x, s ++ tracer ∷ [])) eq, refl, refl, refl)
  fail_lem x b e c (some es) (some es') s d eq =
      (ap (λ s. (fails x, (s ++ tracer ∷ []) ++ meter ∷ [])) eq, refl, refl, refl)

  failing : (x : X) (h : Held) → h.shut ≡ [] → Leads h (fail_after x h.trace_provider h) (some x)
  unfolding held
  failing x h =
      fail_lem x h.batches h.exporters h.connections h.trace_provider h.meter_provider h.shut
        h.shutdown_funcs

  fail_next :
      (x : X) (k : M X) (t : Option (List Exporter)) (h : Held)
      → next (fail_after x t h).0 k (fail_after x t h).1 ≡ fail_after x t h
  unfolding fail_after
  fail_next x k none h = refl
  fail_next x k (some es) h = refl

  starts_lem :
      (on on' : Bool) (r r' : Option X) (h : Held)
      → h.shut ≡ []
      → Leads h ((start_if a on r >> start_if a on' r') h) (first_error on on' r r')
  unfolding start_if start
  starts_lem false false r r' h eq = returned h eq
  starts_lem false true r none h eq = returned h eq
  starts_lem false true r (some x) h eq = failing x h eq
  starts_lem true false none r' h eq = returned h eq
  starts_lem true true none none h eq = returned h eq
  starts_lem true true none (some y) h eq = failing y h eq
  starts_lem true on' (some x) r' h eq =
      subst (λ r. Leads h r (some x)) (sym (fail_next x (start_if a on' r') h.trace_provider h))
        (failing x h eq)

  led :
      (cfg : Config)
      → Opens a
      → cfg.enabled ≡ true
      → (t m : Option (List Exporter)) (c : List Text) → (opened cfg).trace_provider ≡ t
      → (opened cfg).meter_provider ≡ m
      → (opened cfg).shut ≡ []
      → (opened cfg).connections ≡ c
      → let res = new a cfg nothing in
        ((res.0, res.1.shut)
          ≡ ending (first_error cfg.host cfg.runtime a.host_start a.runtime_start) t m)
        × (res.1.trace_provider ≡ t)
        × (res.1.meter_provider ≡ m)
        × (res.1.connections ≡ c)
  unfolding Leads
  led cfg o en t m c et em es ec =
      let (end, tracer_same, meter_same, connections_same) =
        starts_lem cfg.host cfg.runtime a.host_start a.runtime_start (opened cfg) es in
      rw (new-opened a o cfg en)
        (end ∙ simp (et, em), tracer_same ∙ et, meter_same ∙ em, connections_same ∙ ec)

  -- When every exporter and connection can be opened, an enabled New makes a tracer exactly when a
  -- trace address is set and a meter exactly when a metrics address is, each with the exporters of
  -- stdout, gRPC and HTTP, in that order. It returns if the starts of the host and runtime metrics
  -- that are enabled succeed; else it fails with the first start's error, with the tracer and then the
  -- meter shut down, or, without a tracer, calls Shutdown through a nil pointer.
  pub otel_new_lem :
      (cfg : Config)
      → Opens a
      → cfg.enabled ≡ true
      → let res = new a cfg nothing in
        ((res.0, res.1.shut)
          ≡ ending
              (first_error cfg.host cfg.runtime a.host_start a.runtime_start)
              (provider_of cfg.stdout cfg.trace_grpc cfg.trace_http)
              (provider_of cfg.stdout cfg.metrics_grpc cfg.metrics_http))
        × (res.1.trace_provider ≡ provider_of cfg.stdout cfg.trace_grpc cfg.trace_http)
        × (res.1.meter_provider ≡ provider_of cfg.stdout cfg.metrics_grpc cfg.metrics_http)
        × (res.1.connections ≡ address_of cfg.trace_grpc ++ address_of cfg.metrics_grpc)
  otel_new_lem cfg o en = let (et, em, es, ec) = opened_lem cfg in led cfg o en _ _ _ et em es ec
