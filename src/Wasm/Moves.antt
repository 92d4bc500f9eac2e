-- ===== src/Wasm/Moves.antt =====
-- What the methods of pkg/runtimes/wasm/module.go that touch the memory of the guest take and give
-- back, and that they forget nothing of what has happened.
use goico.Shared.{
  ℕ, ◌≡◌, refl, inl, inr, true, Option, none, some, List, [], ◌∷◌, ◌++◌, arith, eqb, Bool-cases,
  Option-cases,
}
use goico.Wasm.Guest.{
  Error, Function, malloc_func, free_func, Event, called, History, GuestLog, Guest, Exit, returns,
  fails, panics,
}
use mathlib.Core.List.{Mem, mem-cons_of_mem}
use goico.Env.Os.{Text}
use goico.Shared.Result.{Result, ok, err, Result-cases}
use goico.Wasm.Module.{
  Module, LogFn, u32, found, read_memory, call_log_fn, log_bytes, log, log_all, of_answer, call,
  free, quietly, free_quietly, reported, free_reported, read_string,
}

-- The first value of a list of values, if there is one
abbrev pub head : List ℕ → List ℕ
head [] = []
head (a ∷ rest) = a ∷ []

abbrev pub answered : Result Error (List ℕ) → List ℕ
answered (ok vs) = head vs
answered (err e) = []

-- The blocks that malloc has handed out, and those on which free was called, the last ones first
abbrev pub taken_by : Event → List ℕ
taken_by (called malloc_func args r) = answered r
taken_by _ = []

abbrev pub freed_by : Event → List ℕ
freed_by (called free_func args r) = head args
freed_by _ = []

unfoldable pub taken : History → List ℕ
taken [] = []
taken (e ∷ h) = taken_by e ++ taken h

unfoldable pub freed : History → List ℕ
freed [] = []
freed (e ∷ h) = freed_by e ++ freed h

-- What happens from `h` to `k` takes the blocks `ts` and gives back the blocks `fs`.
abbrev pub Moves : List ℕ → List ℕ → History → History → Type 0
Moves ts fs h k = (taken k ≡ ts ++ taken h) × (freed k ≡ fs ++ freed h)

-- Nothing that has happened is forgotten.
abbrev pub Grows : History → History → Type 0
Grows h k = (e : Event) → Mem e h → Mem e k

module _ (g : Guest) (m : Module) where
  pub log-Moves :
      (l : GuestLog) (h : History) → ((log g m l h).0 ≡ returns tt) × Moves [] [] h (log g m l h).1
  unfolding log log_bytes read_memory call_log_fn taken freed
  log-Moves (level, offset, size) h = ground arith

  pub log_all-Moves :
      (ls : List GuestLog) (h : History)
      → ((log_all g m ls h).0 ≡ returns tt) × Moves [] [] h (log_all g m ls h).1
  unfolding log_all
  log_all-Moves [] h = (refl, (refl, refl))
  log_all-Moves (l ∷ ls) h = ground (arith, log-Moves l h, log_all-Moves ls (log g m l h).1)

  pub call_log_fn-Grows :
      (f : LogFn) (level : ℕ) (msg : Text) (h : History) → Grows h (call_log_fn g m f level msg h).1
  unfolding call_log_fn
  call_log_fn-Grows none level msg h e mem = mem
  call_log_fn-Grows (some f) level msg h e mem = elim (Option-cases (f h level msg)) [
    | inl fine ↦ rw (fine, call_log_fn) (mem-cons_of_mem _ mem)
    | inr (x, failed) ↦ rw (failed, call_log_fn) (mem-cons_of_mem _ (mem-cons_of_mem _ mem))
  ]

  pub log_bytes-Grows :
      (level offset size : ℕ) (got : Option Text) (h : History)
      → Grows h (log_bytes g m level offset size got h).1
  unfolding log_bytes
  log_bytes-Grows level offset size none h e mem =
      call_log_fn-Grows m.log_fn level [] _ e (mem-cons_of_mem _ (mem-cons_of_mem _ mem))
  log_bytes-Grows level offset size (some buf) h e mem =
      call_log_fn-Grows m.log_fn level buf _ e (mem-cons_of_mem _ mem)

  pub log-Grows : (l : GuestLog) (h : History) → Grows h (log g m l h).1
  unfolding log read_memory
  log-Grows (level, offset, size) h e mem =
      log_bytes-Grows (u32 level) (u32 offset) (u32 size) _ _ e (mem-cons_of_mem _ mem)

  pub log_all-Grows : (ls : List GuestLog) (h : History) → Grows h (log_all g m ls h).1
  unfolding log_all
  log_all-Grows [] h e mem = mem
  log_all-Grows (l ∷ ls) h e mem =
      let grown = log_all-Grows ls (log g m l h).1 e (log-Grows l h e mem) in
      rw (log-Moves l h).0 grown

  pub call-Grows : (f : Function) (args : List ℕ) (h : History) → Grows h (call g m true f args h).1
  unfolding call of_answer
  call-Grows f args h e mem =
      let all = log_all-Grows (g.logs h f args) h e mem in
      rw (log_all-Moves (g.logs h f args) h).0 (elim (Result-cases (g.answer h f args)) [
        | inl (vs, answered1) ↦ rw answered1 (mem-cons_of_mem _ all)
        | inr (x, failed) ↦ rw failed (mem-cons_of_mem _ all)
      ])

  pub quietly-Grows : (r : Exit (List ℕ)) (h : History) → Grows h (quietly g m r h).1
  unfolding quietly
  quietly-Grows (returns v) h e mem = mem
  quietly-Grows (fails x) h e mem = mem
  quietly-Grows panics h e mem = mem

  pub reported-Grows : (r : Exit (List ℕ)) (h : History) → Grows h (reported g m r h).1
  unfolding reported
  reported-Grows (returns v) h e mem = mem
  reported-Grows (fails x) h e mem = mem-cons_of_mem _ mem
  reported-Grows panics h e mem = mem

  pub found-Grows :
      (offset size : ℕ) (got : Option Text) (h : History) → Grows h (found offset size got h).1
  unfolding found
  found-Grows offset size none h e mem = mem
  found-Grows offset size (some bytes) h e mem = mem

  -- A call takes and gives back what the event shows.
  pub call-Moves :
      (f : Function) (args : List ℕ) (h : History)
      → Moves
          (taken_by (called f args (g.answer h f args)))
          (freed_by (called f args (g.answer h f args)))
          h
          (call g m true f args h).1
  unfolding call of_answer taken freed
  call-Moves f args h = ground (arith, log_all-Moves (g.logs h f args) h)

  module _ (exported : m.free_func ≡ true) where
    pub free-Moves :
        (offset size : ℕ) (h : History) → Moves [] (offset ∷ []) h (free g m offset size h).1
    unfolding free
    free-Moves offset size h = rw (exported) (
        ground (
          arith,
          call-Moves free_func (offset ∷ []) h,
          call-Moves free_func (offset ∷ size ∷ []) h,
        ))

    pub free-Grows : (offset size : ℕ) (h : History) → Grows h (free g m offset size h).1
    unfolding free
    free-Grows offset size h e mem = elim (Bool-cases (eqb m.ver 0)) [
      | inl t ↦ simp (exported, t) (call-Grows free_func (offset ∷ []) h e mem)
      | inr f ↦ simp (exported, f) (call-Grows free_func (offset ∷ size ∷ []) h e mem)
    ]

    pub free_quietly-Grows :
        (offset size : ℕ) (h : History) → Grows h (free_quietly g m offset size h).1
    unfolding free_quietly
    free_quietly-Grows offset size h e mem =
        quietly-Grows (free g m offset size h).0 (free g m offset size h).1 e
          (free-Grows offset size h e mem)

    pub free_reported-Grows :
        (offset size : ℕ) (h : History) → Grows h (free_reported g m offset size h).1
    unfolding free_reported
    free_reported-Grows offset size h e mem =
        reported-Grows (free g m offset size h).0 (free g m offset size h).1 e
          (free-Grows offset size h e mem)

    pub read_string-Grows :
        (offset size : ℕ) (h : History) → Grows h (read_string g m offset size h).1
    unfolding read_string read_memory
    read_string-Grows offset size h e mem =
        found-Grows offset size (g.memory_read h offset size) _ e (mem-cons_of_mem _ mem)

    pub free_quietly-Moves :
        (offset size : ℕ) (h : History)
        → Moves [] (offset ∷ []) h (free_quietly g m offset size h).1
    unfolding free_quietly quietly
    free_quietly-Moves offset size h = ground (arith, free-Moves offset size h)

    pub free_reported-Moves :
        (offset size : ℕ) (h : History)
        → Moves [] (offset ∷ []) h (free_reported g m offset size h).1
    unfolding free_reported reported taken freed
    free_reported-Moves offset size h = ground (arith, free-Moves offset size h)

    pub read_string-Moves :
        (offset size : ℕ) (h : History) → Moves [] [] h (read_string g m offset size h).1
    unfolding read_string read_memory found taken freed
    read_string-Moves offset size h = ground arith
