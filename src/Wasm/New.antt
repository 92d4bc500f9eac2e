-- ===== src/Wasm/New.antt =====
-- `NewModule` of pkg/runtimes/wasm/module.go. What wazero does is an input; the host's functions
-- can be looked up once the module is there.
use goico.Shared.{
  ℕ, ◌≡◌, refl, ap, ◌∙◌, inl, inr, Bool, true, false, Option, none, some, List, [], ◌∷◌,
  if◌then◌else◌, Bool-cases, Option-cases,
}
use goico.Wasm.Guest.{
  Error, ver_func, init_func, main_func, malloc_func, free_func, History, Guest, Exit, returns,
  fails, panics, M, bind_exit, bind_exit-returns, ◌>>=◌, pure, fail, panic,
}
use goico.Wasm.Module.{ModuleType, LogFn, Module, type_default, u32, of_answer, call, first}
use goico.Shared.Result.{Result, ok, err}
use goico.Wasm.Results.{call_lem}

-- What wazero answers: whether the host's module fails, whether MustInstantiate panics, and the
-- guest, or the error, that Instantiate returns
pub record Wazero : Type 0 where
  pub host_module : Option Error
  pub wasi_panics : Bool
  pub instantiate : Result Error Guest

-- `ModuleType(v[0])`, if the call did not fail
unfoldable pub of_version : Exit (List ℕ) → M ModuleType
unfolding first
of_version (returns []) = panic
of_version (returns (v ∷ vs)) = pure (u32 v)
of_version (fails e) = pure type_default
of_version panics = panic

abbrev pub blank : LogFn → Module
blank log_fn = record {
  main_func = false;
  init_func = false;
  malloc_func = false;
  free_func = false;
  log_fn = log_fn;
  ver = type_default;
}

module _ (g : Guest) where
  unfoldable pub version : LogFn → M ModuleType
  unfolding call of_version
  version log_fn h =
      if g.exported ver_func
      then of_version (call g (blank log_fn) true ver_func [] h).0
          (call g (blank log_fn) true ver_func [] h).1
      else (returns type_default, h)

  abbrev pub looked_up : LogFn → ModuleType → Module
  looked_up log_fn ver = record {
    main_func = g.exported main_func;
    init_func = g.exported init_func;
    malloc_func = g.exported malloc_func;
    free_func = g.exported free_func;
    log_fn = log_fn;
    ver = ver;
  }

  unfoldable pub initialised : Module → M Module
  unfolding call
  initialised m = do results ← call g m m.init_func init_func []; pure m

  unfoldable pub of_guest : LogFn → M Module
  unfolding version initialised
  of_guest log_fn = do ver ← version log_fn; initialised (looked_up log_fn ver)

unfoldable pub of_instance : LogFn → Result Error Guest → M Module
unfolding of_guest
of_instance log_fn (err e) = fail e
of_instance log_fn (ok g) = of_guest g log_fn

unfoldable pub new_module : Wazero → LogFn → M Module
unfolding of_instance
new_module w log_fn = elim w.host_module [
  | some e ↦ fail e
  | none ↦ if w.wasi_panics then panic else of_instance log_fn w.instantiate
]

-- The version that a guest answers with
abbrev pub version_of : Result Error (List ℕ) → ModuleType
version_of (ok (v ∷ vs)) = u32 v
version_of _ = type_default

module _ (g : Guest) where
  of_version_lem :
      (m : Module) (r : Result Error (List ℕ)) (h : History) (v : ModuleType)
      → (of_version (of_answer g m ver_func [] r h).0 (of_answer g m ver_func [] r h).1).0
        ≡ returns v
      → v ≡ version_of r
  unfolding of_version of_answer
  of_version_lem m (ok []) h v e = cc
  of_version_lem m (ok (w ∷ vs)) h v e = cc
  of_version_lem m (err x) h v e = cc

  version_lem :
      (log_fn : LogFn) (h : History) (v : ModuleType)
      → (version g log_fn h).0 ≡ returns v
      → v ≡ (if g.exported ver_func then version_of (g.answer h ver_func []) else type_default)
  unfolding version call
  version_lem log_fn h v e = elim (Bool-cases (g.exported ver_func)) [
    | inl t ↦
        let (l, c) = call_lem g (blank log_fn) ver_func [] h in
        rw t (of_version_lem (blank log_fn) (g.answer h ver_func []) l v (rw (t, c) at e))
    | inr f ↦ rw f (let e' = rw f at e in cc)
  ]

  called_init :
      (exports : Bool) (n m : Module) (h k : History)
      → bind_exit {B = Module}
          (call g n exports init_func [] h).0
          (λ vs. pure n)
          (call g n exports init_func [] h).1
        ≡ (returns m, k)
      → (exports ≡ true) × (m ≡ n)
  unfolding call
  called_init false n m h k e = cc
  called_init true n m h k e =
      (refl, let (vs, called1, done) = bind_exit-returns _ (λ vs. pure n) _ k m e in cc)

  initialised_lem :
      (n m : Module) (h k : History)
      → initialised g n h ≡ (returns m, k)
      → (n.init_func ≡ true) × (m ≡ n)
  unfolding initialised
  initialised_lem n m h k e = called_init n.init_func n m h k e

  of_guest_lem :
      (log_fn : LogFn) (m : Module) (h k : History)
      → of_guest g log_fn h ≡ (returns m, k)
      → (g.exported init_func ≡ true)
        × (m
            ≡ looked_up g log_fn
                (if g.exported ver_func then version_of (g.answer h ver_func []) else type_default))
  unfolding of_guest
  of_guest_lem log_fn m h k e =
      let (v, found1, rest) =
        bind_exit-returns (version g log_fn h).0 (λ v. initialised g (looked_up g log_fn v)) _ k m
          e in
      let (exports, made) = initialised_lem (looked_up g log_fn v) m _ k rest in
      let ev : v
          ≡ (if g.exported ver_func then version_of (g.answer h ver_func []) else type_default) =
        version_lem log_fn h v found1 in
      (exports, made ∙ ap (looked_up g log_fn) ev)

module _ (w : Wazero) (g : Guest) (log_fn : LogFn) (h k : History) (m : Module) where
  -- A module that NewModule returns has the functions main, init, malloc and free that the guest
  -- exports, of which init is one, the caller's log function, and the version that the guest's ver
  -- answers, as a uint32, which is 0 without such a function or if its call fails.
  pub new_module_lem :
      w.instantiate ≡ ok g
      → new_module w log_fn h ≡ (returns m, k)
      → (g.exported init_func ≡ true)
        × (m.main_func ≡ g.exported main_func)
        × (m.init_func ≡ g.exported init_func)
        × (m.malloc_func ≡ g.exported malloc_func)
        × (m.free_func ≡ g.exported free_func)
        × (m.log_fn ≡ log_fn)
        × (m.ver ≡ (if g.exported ver_func then version_of (g.answer h ver_func []) else 0))
  unfolding new_module of_instance
  new_module_lem eg e = elim (Option-cases w.host_module) [
    | inr (x, refused) ↦ let e' = rw refused at e in cc
    | inl none1 ↦ elim (Bool-cases w.wasi_panics) [
      | inl t ↦ let e' = rw (none1, t) at e in cc
      | inr f ↦
          let (exports, made) = of_guest_lem g log_fn m h k (rw (none1, f, eg) at e) in
          (
            exports,
            ap (λ (n : Module). n.main_func) made,
            ap (λ (n : Module). n.init_func) made,
            ap (λ (n : Module). n.malloc_func) made,
            ap (λ (n : Module). n.free_func) made,
            ap (λ (n : Module). n.log_fn) made,
            ap (λ (n : Module). n.ver) made,
          )
    ]
  ]
