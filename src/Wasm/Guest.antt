-- ===== src/Wasm/Guest.antt =====
-- What pkg/runtimes/wasm/module.go needs of a WebAssembly module that wazero runs: its exported
-- functions and its memory, which answer by all that has happened so far. A method of the host
-- runs on that history, the newest event first.
use goico.Shared.{refl, ◌≡◌, ℕ, Bool, Option, List, ◌∷◌}
use goico.Env.Os.{Text}
use goico.Shared.Result.{Result}

-- The errors of the package, and those that wazero returns.
pub data Error : Type 0 where
  guest_error : ℕ → Error
  write_out_of_range : ℕ → ℕ → Error
  read_out_of_range : ℕ → ℕ → Error
  unexpected_eof : Error

-- The exports that the host looks up; main_func is the one that the caller of NewModule names.
pub data Function : Type 0 where
  ver_func : Function
  init_func : Function
  main_func : Function
  malloc_func : Function
  free_func : Function

pub data LogMessage : Type 0 where
  calling_main : LogMessage
  error_freeing : Error → LogMessage
  read_failed : ℕ → ℕ → LogMessage
  guest_message : ℕ → Text → LogMessage
  log_function_failed : Error → LogMessage

pub data Event : Type 0 where
  called : Function → List ℕ → Result Error (List ℕ) → Event
  wrote : ℕ → Text → Bool → Event
  read : ℕ → ℕ → Option Text → Event
  logged : LogMessage → Event
  log_function : ℕ → Text → Event

abbrev pub History : Type 0
History = List Event

-- A message that the guest logs: level, offset and size.
abbrev pub GuestLog : Type 0
GuestLog = ℕ × ℕ × ℕ

-- The guest. During a call it may log; then it answers.
pub record Guest : Type 0 where
  pub exported : Function → Bool
  pub logs : History → Function → List ℕ → List GuestLog
  pub answer : History → Function → List ℕ → Result Error (List ℕ)
  pub memory_write : History → ℕ → Text → Bool
  pub memory_read : History → ℕ → ℕ → Option Text

-- How a method ends: it returns, it returns an error, or it panics.
pub data Exit (A : Type 0) : Type 0 where
  returns : A → Exit A
  fails : Error → Exit A
  panics : Exit A

abbrev pub M : Type 0 → Type 0
M A = History → Exit A × History

abbrev pub bind_exit : {A B : Type 0} → Exit A → (A → M B) → M B
bind_exit (returns a) f h = f a h
bind_exit (fails e) f h = (fails e, h)
bind_exit panics f h = (panics, h)

-- What a bind that returns has run
pub bind_exit-returns :
    {A B : Type 0} (r : Exit A) (f : A → M B) (l k : History) (b : B)
    → bind_exit r f l ≡ (returns b, k)
    → (a : A) × (r ≡ returns a) × (f a l ≡ (returns b, k))
bind_exit-returns (returns a) f l k b e = (a, refl, e)
bind_exit-returns (fails x) f l k b e = cc
bind_exit-returns panics f l k b e = cc

infixl 5 ◌>>=◌ ◌>>◌
abbrev pub ◌>>=◌ : {A B : Type 0} → M A → (A → M B) → M B
◌>>=◌ m f h = bind_exit (m h).0 f (m h).1

abbrev pub ◌>>◌ : {B : Type 0} → M (Unit {0}) → M B → M B
m >> k = m >>= λ _. k

abbrev pub pure : {A : Type 0} → A → M A
pure a h = (returns a, h)

abbrev pub fail : {A : Type 0} → Error → M A
fail e h = (fails e, h)

abbrev pub panic : {A : Type 0} → M A
panic h = (panics, h)

abbrev pub log_message : LogMessage → M (Unit {0})
log_message l h = (returns tt, logged l ∷ h)

-- `defer`: the clean-up runs however the body ends, and the body's end stands, unless the clean-up
-- panics.
abbrev pub panicked : {A : Type 0} → Exit (Unit {0}) → Exit A → Exit A
panicked (returns u) r = r
panicked (fails e) r = r
panicked panics r = panics

abbrev pub deferring : {A : Type 0} → M (Unit {0}) → M A → M A
deferring cleanup body h = (panicked (cleanup (body h).1).0 (body h).0, (cleanup (body h).1).1)
