-- ===== src/Wasm/Runtime.antt =====
-- pkg/runtimes/wasm/runtime.go. What the os package and wazero answer is an input.
use goico.Shared.{◌≡◌, refl, ap, ◌≢◌, ◌↔◌, ◌⊎◌, inl, inr, Option, none, some, List, [], ◌∷◌, ◌++◌}
use goico.Env.Os.{Text}
use goico.Shared.Result.{Result, ok, err, Result-cases}

pub data RuntimeError (X : Type 0) : Type 0 where
  directory_empty : RuntimeError X
  system_error : X → RuntimeError X

-- `Runtime`; the cache by what its Close returns
pub record Runtime (X : Type 0) : Type 0 where
  pub cache_dir : Option Text
  pub cache : Option (Option X)

pub record Outside (X : Type 0) : Type 0 where
  pub mkdir_all : Text → Option X
  pub mkdir_temp : Text → Result X Text
  pub new_cache : Text → Result X (Option X)
  pub remove_all : Text → Option X

module _ {X : Type 0} (o : Outside X) where
  unfoldable pub of_error : Option X → Option (RuntimeError X)
  of_error none = none
  of_error (some x) = some (system_error x)

  -- The error of RemoveAll takes the place of the cache's.
  unfoldable pub of_cache :
      Text → Result X (Option X) → Option (Runtime X) × Option (RuntimeError X)
  unfolding of_error
  of_cache dir (err x) = (none, of_error (o.remove_all dir))
  of_cache dir (ok close) = (some (record { cache_dir = some dir; cache = some close }), none)

  unfoldable pub of_temp : Result X Text → Option (Runtime X) × Option (RuntimeError X)
  unfolding of_cache
  of_temp (err x) = (none, some (system_error x))
  of_temp (ok dir) = of_cache dir (o.new_cache dir)

  unfoldable pub of_mkdir : Text → Option X → Option (Runtime X) × Option (RuntimeError X)
  unfolding of_temp
  of_mkdir temp_dir none = of_temp (o.mkdir_temp temp_dir)
  of_mkdir temp_dir (some x) = (none, some (system_error x))

  -- `NewRuntimeWithCompilationCache`
  unfoldable pub new_runtime : Text → Option (Runtime X) × Option (RuntimeError X)
  unfolding of_mkdir
  new_runtime [] = (none, some directory_empty)
  new_runtime (c ∷ cs) = of_mkdir (c ∷ cs) (o.mkdir_all (c ∷ cs))

  -- The errors that errors.Join joins
  abbrev pub joined : Option X → List X
  joined none = []
  joined (some x) = x ∷ []

  -- `Close`
  unfoldable pub close : Runtime X → List X
  close r =
      (elim r.cache [ none ↦ [] | some closed ↦ joined closed ])
      ++ (elim r.cache_dir [ none ↦ [] | some dir ↦ joined (o.remove_all dir) ])

  -- The cache could not be made in its new directory, which is removed.
  abbrev pub CacheRefused : Result X Text → Type 0
  CacheRefused r =
      (dir : Text) × (x : X) × (r ≡ ok dir) × (o.new_cache dir ≡ err x) × (o.remove_all dir ≡ none)

  of_error-none : (x : Option X) → of_error x ≡ none → x ≡ none
  unfolding of_error
  of_error-none none h = refl
  of_error-none (some x) h = cc

  of_cache-nothing :
      (dir : Text) (r : Result X (Option X))
      → of_cache dir r ≡ (none, none)
      → (x : X) × (r ≡ err x) × (o.remove_all dir ≡ none)
  unfolding of_cache
  of_cache-nothing dir (err x) h = (x, refl, of_error-none _ (ap (λ p. p.1) h))
  of_cache-nothing dir (ok c) h = cc

  of_temp-nothing : (r : Result X Text) → (of_temp r ≡ (none, none)) → CacheRefused r
  unfolding of_temp
  of_temp-nothing (err x) h = cc
  of_temp-nothing (ok dir) h =
      let (x, made, removed) = of_cache-nothing dir (o.new_cache dir) h in
      (dir, x, refl, made, removed)

  of_temp_refused : (r : Result X Text) → CacheRefused r → of_temp r ≡ (none, none)
  unfolding of_temp of_cache of_error
  of_temp_refused r (dir, x, made, refused, removed) = rw (made, refused, removed) refl

  of_temp-exclusive : (r : Result X Text) → ((of_temp r).0 ≡ none) ⊎ ((of_temp r).1 ≡ none)
  unfolding of_temp of_cache
  of_temp-exclusive (err x) = inl refl
  of_temp-exclusive (ok dir) = elim (Result-cases (o.new_cache dir)) [
    | inl (c, e) ↦ inr (rw e refl)
    | inr (x, e) ↦ inl (rw e refl)
  ]

  of_mkdir-nothing :
      (dir : Text) (r : Option X)
      → (((of_mkdir dir r ≡ (none, none)) ↔ ((r ≡ none) × CacheRefused (o.mkdir_temp dir)))
          × (((of_mkdir dir r).0 ≡ none) ⊎ ((of_mkdir dir r).1 ≡ none)))
  unfolding of_mkdir
  of_mkdir-nothing dir none =
      ((λ h. (refl, of_temp-nothing _ h), λ h. of_temp_refused _ h.1), of_temp-exclusive _)
  of_mkdir-nothing dir (some x) = ((λ h. cc, λ h. cc (h.0)), inl refl)

  -- NewRuntimeWithCompilationCache returns neither a runtime nor an error exactly if the directory
  -- for the cache was made, the cache could not be, and the directory could be removed again; it
  -- never returns both.
  new_runtime-nothing :
      (temp_dir : Text)
      → (((new_runtime temp_dir) ≡ (none, none)) ↔ (
          (temp_dir ≢ []) × (o.mkdir_all temp_dir ≡ none) × CacheRefused (o.mkdir_temp temp_dir)))
        × (((new_runtime temp_dir).0 ≡ none) ⊎ ((new_runtime temp_dir).1 ≡ none))
  unfolding new_runtime
  new_runtime-nothing [] = ((λ h. cc, λ h. absurd (h.0 refl)), inl refl)
  new_runtime-nothing (c ∷ cs) =
      let (exact, exclusive) = of_mkdir-nothing (c ∷ cs) (o.mkdir_all (c ∷ cs)) in
      ((λ h. (λ n. cc, (exact.0 h).0, (exact.0 h).1), λ h. exact.1 (h.1, h.2)), exclusive)
