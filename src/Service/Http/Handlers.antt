-- ===== src/Service/Http/Handlers.antt =====
-- The handlers of pkg/service/http/service.go, WriteJSONBody of pkg/service/http/utils.go and the
-- recovery of panics of pkg/service/http/recover.go. What encoding/json and the functions of the
-- service answer is an input.
use goico.Shared.{
  sym, ◌≡◌, refl, ap, ◌∙◌, ℕ, Bool, true, false, not, Option, none, some, [], ◌∷◌, ◌++◌,
  if◌then◌else◌,
}
use goico.Env.Os.{Text}
use goico.Shared.Result.{Result, ok, err}
use goico.Service.Http.{Server}

-- The ResponseWriter that http.TimeoutHandler, round the router, gives to the handlers: the header's
-- content type, the first status code, and the body. All is sent when the handler has ended, as long as
-- it ends in time.
pub record Writer : Type 0 where
  pub content_type : Text
  pub code : Option ℕ
  pub body : Text

abbrev pub new_writer : Writer
new_writer = record { content_type = []; code = none; body = [] }

-- How a handler ends
pub data Ended : Type 0 where
  returned : Writer → Ended
  panicked : Writer → Ended

-- w.Header().Set("Content-Type", t)
abbrev pub set_content_type : Text → Writer → Writer
set_content_type t w = record w { content_type = t }

-- WriteHeader: the first call counts.
abbrev pub first_code : ℕ → Option ℕ → Option ℕ
first_code code none = some code
first_code code (some first) = some first

abbrev pub write_header : ℕ → Writer → Writer
write_header code w = record w { code = first_code code w.code }

-- Write, which sends the code 200 if none was sent
abbrev pub write_bytes : Text → Writer → Writer
write_bytes bytes w = record w { code = first_code 200 w.code; body = w.body ++ bytes }

-- What is sent when the handler has ended: the code, the content type and the body
abbrev code_or_ok : Option ℕ → ℕ
code_or_ok none = 200
code_or_ok (some code) = code

unfoldable pub delivered : Writer → ℕ × Text × Text
delivered w = (code_or_ok w.code, w.content_type, w.body)

-- "application/json", "application/JSON"
abbrev pub json_type : Text
json_type =
    97 ∷ 112 ∷ 112 ∷ 108 ∷ 105 ∷ 99 ∷ 97 ∷ 116 ∷ 105 ∷ 111 ∷ 110 ∷ 47 ∷ 106 ∷ 115 ∷ 111 ∷ 110 ∷ []

abbrev pub json_type_upper : Text
json_type_upper =
    97 ∷ 112 ∷ 112 ∷ 108 ∷ 105 ∷ 99 ∷ 97 ∷ 116 ∷ 105 ∷ 111 ∷ 110 ∷ 47 ∷ 74 ∷ 83 ∷ 79 ∷ 78 ∷ []

-- What Fprintf adds to a format without a verb: "%!(EXTRA string=Internal Server Error)"
abbrev pub extra : Text
extra =
    37 ∷ 33 ∷ 40 ∷ 69 ∷ 88 ∷ 84 ∷ 82 ∷ 65 ∷ 32 ∷ 115 ∷ 116 ∷ 114 ∷ 105 ∷ 110 ∷ 103 ∷ 61 ∷ 73 ∷ 110
    ∷ 116 ∷ 101 ∷ 114 ∷ 110 ∷ 97 ∷ 108 ∷ 32 ∷ 83 ∷ 101 ∷ 114 ∷ 118 ∷ 101 ∷ 114 ∷ 32 ∷ 69 ∷ 114 ∷ 114
    ∷ 111 ∷ 114 ∷ 41 ∷ []

-- `WriteJSONBody`, by what the encoder answers: it leaves the buffer empty if it fails.
unfoldable pub write_json_body : {X : Type 0} → Result X Text → ℕ → Text → Writer → Writer
write_json_body (err x) status alt_error w =
    write_bytes (alt_error ++ extra) (write_header 500 (set_content_type json_type w))
write_json_body (ok b) status alt_error w =
    write_bytes b
      (set_content_type json_type_upper (write_header status (set_content_type json_type w)))

-- `HealthStatus`; details by what the health check gave
pub record HealthStatus (D : Type 0) : Type 0 where
  pub is_ok : Bool
  pub service_status : Text
  pub started_at : ℕ
  pub details : D

-- `{error:"error getting health check status"}` and `{error:"error getting metadata"}`
abbrev pub health_error : Text
health_error =
    123 ∷ 101 ∷ 114 ∷ 114 ∷ 111 ∷ 114 ∷ 58 ∷ 34 ∷ 101 ∷ 114 ∷ 114 ∷ 111 ∷ 114 ∷ 32 ∷ 103 ∷ 101 ∷ 116
    ∷ 116 ∷ 105 ∷ 110 ∷ 103 ∷ 32 ∷ 104 ∷ 101 ∷ 97 ∷ 108 ∷ 116 ∷ 104 ∷ 32 ∷ 99 ∷ 104 ∷ 101 ∷ 99 ∷ 107
    ∷ 32 ∷ 115 ∷ 116 ∷ 97 ∷ 116 ∷ 117 ∷ 115 ∷ 34 ∷ 125 ∷ []

abbrev pub metadata_error : Text
metadata_error =
    123 ∷ 101 ∷ 114 ∷ 114 ∷ 111 ∷ 114 ∷ 58 ∷ 34 ∷ 101 ∷ 114 ∷ 114 ∷ 111 ∷ 114 ∷ 32 ∷ 103 ∷ 101 ∷ 116
    ∷ 116 ∷ 105 ∷ 110 ∷ 103 ∷ 32 ∷ 109 ∷ 101 ∷ 116 ∷ 97 ∷ 100 ∷ 97 ∷ 116 ∷ 97 ∷ 34 ∷ 125 ∷ []

-- The answer of a health check: the details, and whether there is an error
abbrev pub Checked : Type 0 → Type 0
Checked D = D × Bool

-- `healthCheckHandler` after the check; the Boolean tells whether there is a status function.
unfoldable pub answer_health :
    {X D : Type 0} → (HealthStatus D → Result X Text) → Checked D → Bool → Text × ℕ → Writer → Ended
unfolding write_json_body
answer_health encode checked false status w = panicked w
answer_health encode (details, failed) true (text, when) w = returned (
    write_json_body
      (encode (record {
        is_ok = not failed;
        service_status = text;
        started_at = when;
        details = details;
      }))
      (if failed then 500 else 200) health_error w)

unfoldable pub handle_health :
    {Health X D : Type 0}
    → Option Health
    → Bool
    → (Health → Checked D)
    → (HealthStatus D → Result X Text)
    → Text × ℕ
    → Writer
    → Ended
unfolding answer_health
handle_health none tells run encode status w = panicked w
handle_health (some f) tells run encode status w = answer_health encode (run f) tells status w

module _ {Base Ctx Listener Health X D : Type 0} where
  -- `healthCheckHandler`: a nil check or a nil status function panics.
  unfoldable pub health_check_handler :
      Server Base Ctx Listener Health X
      → (Health → Checked D)
      → (HealthStatus D → Result X Text)
      → Text × ℕ
      → Writer
      → Ended
  unfolding handle_health
  health_check_handler s run encode status w =
      handle_health s.health_check_func s.tells_status run encode status
        (set_content_type json_type_upper w)

-- `metadataHandler`
unfoldable pub metadata_handler : {X : Type 0} → Result X Text → Writer → Writer
unfolding write_json_body
metadata_handler encoded w = write_json_body encoded 200 metadata_error w

-- `TryToRecover`, round the end of the handler behind it: whether the panic is logged, and the writer
unfoldable pub try_to_recover : Ended → Bool × Writer
try_to_recover (returned w) = (false, w)
try_to_recover (panicked w) = (true, write_header 500 w)

-- The code, the content type and the body of the answer of the health handler, by the encoding of
-- the status and whether the check gave an error
abbrev pub answer_of : {X : Type 0} → Result X Text → Bool → ℕ × Text × Text
answer_of (err x) failed = (500, json_type, health_error ++ extra)
answer_of (ok b) failed = (if failed then 500 else 200, json_type_upper, b)

json_lem :
    {X : Type 0} (r : Result X Text) (failed : Bool) (t : Text)
    → delivered (
        write_json_body r
          (if failed then 500 else 200)
          health_error
          (set_content_type t new_writer))
      ≡ answer_of r failed
unfolding write_json_body delivered
json_lem (err x) failed t = refl
json_lem (ok b) failed t = refl

module _ {Base Ctx Listener Health X D : Type 0} where
  -- Of a server with a health check and a status function, the health handler, if it ends in time,
  -- answers with the encoded status, which names the service's status, as "application/JSON", with the
  -- code 200 if the check gives no error and with 500 otherwise; if the status cannot be encoded, with
  -- 500 and an error text as "application/json". Without a status function it panics, which the
  -- recovery answers with the code 500 and no body. Once a code has been set, the recovery of a panic
  -- changes nothing of the answer.
  pub health_check_handler_lem :
      (s silent : Server Base Ctx Listener Health X) (f : Health) (run : Health → Checked D)
      (encode : HealthStatus D → Result X Text) (text : Text) (when code : ℕ) (w : Writer)
      → s.health_check_func ≡ some f
      → silent.health_check_func ≡ some f
      → s.tells_status ≡ true
      → silent.tells_status ≡ false
      → w.code ≡ some code
      → let body = encode (record {
        is_ok = not (run f).1;
        service_status = text;
        started_at = when;
        details = (run f).0;
      }) in
        let (logged, answer) =
          try_to_recover (health_check_handler s run encode (text, when) new_writer) in
        let (logged', answer') =
          try_to_recover (health_check_handler silent run encode (text, when) new_writer) in
        ((logged ≡ false) × (delivered answer ≡ answer_of body (run f).1))
        × ((logged' ≡ true) × (delivered answer' ≡ (500, json_type_upper, [])))
        × (try_to_recover (panicked w) ≡ (true, w))
  unfolding health_check_handler try_to_recover delivered
  health_check_handler_lem s silent f run encode text when code w has has' tells tells' e =
      let kept : first_code 500 w.code ≡ w.code = ap (first_code 500) e ∙ sym e in
      (
        (simp (has, tells), simp (has, tells, json_lem)),
        (simp (has', tells'), simp (has', tells')),
        λ i. (true, record w { code = kept i }),
      )
