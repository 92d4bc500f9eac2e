-- ===== src/Obs/Config.antt =====
-- pkg/service/obs/otel.go: what New reads of the environment.
use goico.Shared.{Bool, Option, [], ◌∷◌}
use goico.Env.Os.{Text, Environ}
use goico.Env.Getters.{bool, string_or_nil}

-- The names of the variables
abbrev pub var_enabled : Text
var_enabled = 111 ∷ 98 ∷ 115 ∷ 46 ∷ 101 ∷ 110 ∷ 97 ∷ 98 ∷ 108 ∷ 101 ∷ 100 ∷ []

abbrev pub var_stdout : Text
var_stdout =
    111 ∷ 98 ∷ 115 ∷ 46 ∷ 101 ∷ 120 ∷ 112 ∷ 111 ∷ 114 ∷ 116 ∷ 101 ∷ 114 ∷ 46 ∷ 115 ∷ 116 ∷ 100 ∷ 111
    ∷ 117 ∷ 116 ∷ []

abbrev pub var_trace : Text
var_trace =
    111 ∷ 98 ∷ 115 ∷ 46 ∷ 101 ∷ 120 ∷ 112 ∷ 111 ∷ 114 ∷ 116 ∷ 101 ∷ 114 ∷ 46 ∷ 116 ∷ 114 ∷ 97 ∷ 99
    ∷ 101 ∷ []

abbrev pub var_trace_grpc : Text
var_trace_grpc =
    111 ∷ 98 ∷ 115 ∷ 46 ∷ 101 ∷ 120 ∷ 112 ∷ 111 ∷ 114 ∷ 116 ∷ 101 ∷ 114 ∷ 46 ∷ 116 ∷ 114 ∷ 97 ∷ 99
    ∷ 101 ∷ 46 ∷ 103 ∷ 114 ∷ 112 ∷ 99 ∷ 46 ∷ 104 ∷ 111 ∷ 115 ∷ 116 ∷ []

abbrev pub var_trace_http : Text
var_trace_http =
    111 ∷ 98 ∷ 115 ∷ 46 ∷ 101 ∷ 120 ∷ 112 ∷ 111 ∷ 114 ∷ 116 ∷ 101 ∷ 114 ∷ 46 ∷ 116 ∷ 114 ∷ 97 ∷ 99
    ∷ 101 ∷ 46 ∷ 104 ∷ 116 ∷ 116 ∷ 112 ∷ 46 ∷ 104 ∷ 111 ∷ 115 ∷ 116 ∷ []

abbrev pub var_metrics : Text
var_metrics =
    111 ∷ 98 ∷ 115 ∷ 46 ∷ 101 ∷ 120 ∷ 112 ∷ 111 ∷ 114 ∷ 116 ∷ 101 ∷ 114 ∷ 46 ∷ 109 ∷ 101 ∷ 116 ∷ 114
    ∷ 105 ∷ 99 ∷ 115 ∷ []

abbrev pub var_metrics_grpc : Text
var_metrics_grpc =
    111 ∷ 98 ∷ 115 ∷ 46 ∷ 101 ∷ 120 ∷ 112 ∷ 111 ∷ 114 ∷ 116 ∷ 101 ∷ 114 ∷ 46 ∷ 109 ∷ 101 ∷ 116 ∷ 114
    ∷ 105 ∷ 99 ∷ 115 ∷ 46 ∷ 103 ∷ 114 ∷ 112 ∷ 99 ∷ 46 ∷ 104 ∷ 111 ∷ 115 ∷ 116 ∷ []

abbrev pub var_metrics_http : Text
var_metrics_http =
    111 ∷ 98 ∷ 115 ∷ 46 ∷ 101 ∷ 120 ∷ 112 ∷ 111 ∷ 114 ∷ 116 ∷ 101 ∷ 114 ∷ 46 ∷ 109 ∷ 101 ∷ 116 ∷ 114
    ∷ 105 ∷ 99 ∷ 115 ∷ 46 ∷ 104 ∷ 116 ∷ 116 ∷ 112 ∷ 46 ∷ 104 ∷ 111 ∷ 115 ∷ 116 ∷ []

abbrev pub var_host : Text
var_host =
    111 ∷ 98 ∷ 115 ∷ 46 ∷ 109 ∷ 101 ∷ 116 ∷ 114 ∷ 105 ∷ 99 ∷ 115 ∷ 46 ∷ 104 ∷ 111 ∷ 115 ∷ 116 ∷ []

abbrev pub var_runtime : Text
var_runtime =
    111 ∷ 98 ∷ 115 ∷ 46 ∷ 109 ∷ 101 ∷ 116 ∷ 114 ∷ 105 ∷ 99 ∷ 115 ∷ 46 ∷ 114 ∷ 117 ∷ 110 ∷ 116 ∷ 105
    ∷ 109 ∷ 101 ∷ []

-- What the environment says
pub record Config : Type 0 where
  pub enabled : Bool
  pub stdout : Bool
  pub trace : Bool
  pub trace_grpc : Option Text
  pub trace_http : Option Text
  pub metrics : Bool
  pub metrics_grpc : Option Text
  pub metrics_http : Option Text
  pub host : Bool
  pub runtime : Bool

unfoldable pub config_of : Environ → Config
unfolding bool string_or_nil
config_of e = record {
  enabled = bool var_enabled [] e;
  stdout = bool var_stdout [] e;
  trace = bool var_trace [] e;
  trace_grpc = string_or_nil var_trace_grpc e;
  trace_http = string_or_nil var_trace_http e;
  metrics = bool var_metrics [] e;
  metrics_grpc = string_or_nil var_metrics_grpc e;
  metrics_http = string_or_nil var_metrics_http e;
  host = bool var_host [] e;
  runtime = bool var_runtime [] e;
}
