-- ===== src/Service/Base.antt =====
-- pkg/service/base.go: the status of a service; and how DoServe of pkg/service/http/service.go and of
-- pkg/service/grpc/service.go set it. Times are numbers, 0 the zero time. What the servers return is
-- an input.
use goico.Shared.{
  ℕ, ◌≡◌, refl, ap, Bool, true, false, not, Option, none, some, List, [], ◌∷◌, if◌then◌else◌,
}

-- `StatusType`
pub data StatusType : Type 0 where
  status_stopped status_started status_starting : StatusType

-- `Base`, less what it hands over to libraries; `cancelled`: the context is done.
pub record Base : Type 0 where
  pub status : StatusType
  pub start_time : ℕ
  pub name : List ℕ
  pub kind : List ℕ
  pub addr : List ℕ
  pub cancelled : Bool

-- `New`, with the options that set the name, the kind and the address, if telemetry starts
unfoldable pub new_base : List ℕ → List ℕ → List ℕ → Base
new_base name kind addr = record {
  status = status_starting;
  start_time = 0;
  name = name;
  kind = kind;
  addr = addr;
  cancelled = false;
}

-- `Stop`
unfoldable pub stop : Base → Base
stop b = record b { cancelled = true }

-- `SetStartedNow`
unfoldable pub set_started_now : ℕ → Base → Base
set_started_now now b = record b { status = status_started; start_time = now }

-- `Stopped`
unfoldable pub stopped : Base → Base
stopped b = record b { status = status_stopped; start_time = 0 }

-- "stopped", "started", "starting"
unfoldable pub string_of : StatusType → List ℕ
string_of status_stopped = 115 ∷ 116 ∷ 111 ∷ 112 ∷ 112 ∷ 101 ∷ 100 ∷ []
string_of status_started = 115 ∷ 116 ∷ 97 ∷ 114 ∷ 116 ∷ 101 ∷ 100 ∷ []
string_of status_starting = 115 ∷ 116 ∷ 97 ∷ 114 ∷ 116 ∷ 105 ∷ 110 ∷ 103 ∷ []

-- `Status`
unfoldable pub status_of : Base → List ℕ × ℕ
unfolding string_of
status_of b = (string_of b.status, b.start_time)

-- What the Serve of a server returns: nil or that it was closed, or another error.
pub data Served (X : Type 0) : Type 0 where
  closed : Served X
  serve_error : X → Served X

-- What DoServe returns
pub data ServeError (X : Type 0) : Type 0 where
  failed_to_listen : X → ServeError X
  failed_to_serve : X → ServeError X
  failed_to_shutdown : X → ServeError X
  address_missing : ServeError X

module _ {X : Type 0} where
  -- DoServe of an HTTP service; `shut` is what Shutdown returns.
  unfoldable pub http_do_serve :
      Bool → Served X → Option X → ℕ → Base → Option (ServeError X) × Base
  unfolding set_started_now stopped
  http_do_serve imsidecar served shut now b =
      let b1 = if not imsidecar then set_started_now now b else b in
      (
        elim served [
          | serve_error x ↦ some (failed_to_serve x)
          | closed ↦ elim shut [ none ↦ none | some x ↦ some (failed_to_shutdown x) ]
        ],
        stopped b1,
      )

  -- Serve of an HTTP service
  unfoldable pub http_serve :
      Option X → Bool → Served X → Option X → ℕ → Base → Option (ServeError X) × Base
  unfolding http_do_serve
  http_serve listened imsidecar served shut now b = elim listened [
    | some x ↦ (some (failed_to_listen x), b)
    | none ↦ http_do_serve imsidecar served shut now b
  ]

  -- DoServe of a gRPC service
  unfoldable pub grpc_do_serve : Served X → ℕ → Base → Option (ServeError X) × Base
  unfolding set_started_now stop
  grpc_do_serve served now b = elim b.addr [
    | [] ↦ (some address_missing, stop b)
    | d ∷ rest ↦ (
      elim served [ serve_error x ↦ some (failed_to_serve x) | closed ↦ none ],
      stop (set_started_now now b),
    )
  ]

  -- Serve of a gRPC service
  unfoldable pub grpc_serve : Option X → Served X → ℕ → Base → Option (ServeError X) × Base
  unfolding grpc_do_serve
  grpc_serve listened served now b = elim listened [
    | some x ↦ (some (failed_to_listen x), b)
    | none ↦ grpc_do_serve served now b
  ]

-- However the servers end, an HTTP service that has served is "stopped", with the zero time; a gRPC
-- service with an address that has served is "started" still, since the time at which it began,
-- although its context is done. One that cannot listen stays as it was.
pub serve_status :
    {X : Type 0} (b : Base) (d : ℕ) (rest : List ℕ) (imsidecar : Bool) (served : Served X)
    (shut : Option X) (x : X) (now : ℕ)
    → b.addr ≡ d ∷ rest
    → (status_of (http_serve none imsidecar served shut now b).1 ≡ (string_of status_stopped, 0))
      × (status_of (grpc_serve none served now b).1 ≡ (string_of status_started, now))
      × ((grpc_serve none served now b).1.cancelled ≡ true)
      × ((http_serve (some x) imsidecar served shut now b).1 ≡ b)
      × ((grpc_serve (some x) served now b).1 ≡ b)
unfolding status_of http_serve grpc_serve grpc_do_serve stopped set_started_now stop
serve_status {X} b d rest imsidecar served shut x now h =
    let ran : (grpc_do_serve served now b).1 ≡ stop (set_started_now now b) =
      ap
        (λ a.
          (elim a as (λ l. Option (ServeError X) × Base) [
            | [] ↦ (some address_missing, stop b)
            | d ∷ rest ↦ (
              elim served [ serve_error x ↦ some (failed_to_serve x) | closed ↦ none ],
              stop (set_started_now now b),
            )
          ]).1)
        h in
    (refl, ap status_of ran, ap (λ c. c.cancelled) ran, refl, refl)
