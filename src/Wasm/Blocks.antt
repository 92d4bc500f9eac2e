-- ===== src/Wasm/Blocks.antt =====
-- Which blocks of the guest's memory the methods of pkg/runtimes/wasm/module.go take and give back.
use goico.Shared.{
  ◌/◌, ℕ, ◌≡◌, refl, ◌⊎◌, inl, inr, Bool, true, false, Option, none, some, List, [], ◌∷◌, ◌++◌,
  arith, eqb, Bool-cases, length,
}
use goico.Wasm.Guest.{
  Error, write_out_of_range, main_func, malloc_func, calling_main, wrote, read, logged, History,
  Guest, Exit, returns, fails, panics, M, bind_exit, ◌>>=◌, pure, deferring,
}
use mathlib.Core.List.{Mem, mem-cons_self, reverse-append, append_assoc, reverse}
use goico.Env.Os.{Text}
use goico.Shared.Result.{Result, ok, err}
use goico.Wasm.Module.{
  Module, EventFuncResult, u32, decode_result, found, or_eof, decoded, written, read_memory,
  write_memory, of_answer, call, first, malloc, free_quietly, read_string, get_result_str,
  result_of, get_result, reserve_memory_for_result, write_to_memory, call_main, run_with, run,
}
use goico.Wasm.Moves.{
  taken, freed, Moves, Grows, call-Moves, free_quietly-Grows, free_quietly-Moves,
  free_reported-Grows, free_reported-Moves, log_all-Moves, read_string-Grows, read_string-Moves,
}

-- The address in the upper half of the pointer of a result that has been read
abbrev pub IsResultBlock : ℕ → History → Type 0
IsResultBlock a h =
    (offset size : ℕ) × (bytes : Text) × (r : EventFuncResult) × Mem (read offset size (some bytes))
      h
    × (decode_result bytes ≡ some r)
    × (a ≡ u32 (r.str_ptr_encoded / 4294967296))

-- No block, or that of the result's string
abbrev pub Block : List ℕ → History → Type 0
Block s h = (s ≡ []) ⊎ ((a : ℕ) × (s ≡ a ∷ []) × IsResultBlock a h)

Block-Grows : (s : List ℕ) (h k : History) → Grows h k → Block s h → Block s k
Block-Grows s h k g (inl e) = inl e
Block-Grows s h k g (inr (a, e, (offset, size, bytes, r, m, d, p))) =
    inr (a, e, (offset, size, bytes, r, g (read offset size (some bytes)) m, d, p))

-- No block is taken, and at most one, that of the result's string, is given back.
abbrev Returns : History → History → Type 0
Returns h k = (s : List ℕ) × Block s k × Moves [] s h k

-- No block is taken, and at most the one to which the pointer points is given back.
abbrev Drops : ℕ → History → History → Type 0
Drops ptr h k =
    (s : List ℕ) × ((s ≡ []) ⊎ (s ≡ u32 (ptr / 4294967296) ∷ [])) × Moves [] s h k × Grows h k

-- How a call of malloc can end: with a block, or with nothing taken
data Malloc (h : History) : Exit ℕ × History → Type 0 where
  took : (a : ℕ) (k : History) → Moves (a ∷ []) [] h k → Malloc h (returns a, k)
  refused : (e : Error) (k : History) → Moves [] [] h k → Malloc h (fails e, k)
  died : (k : History) → Moves [] [] h k → Malloc h (panics, k)

bind-Returns :
    {A B : Type 0} (r : Exit A) (f : A → M B) (h k : History)
    → Moves [] [] h k
    → ((a : A) → Returns k (f a k).1)
    → Returns h (bind_exit r f k).1
bind-Returns (returns a) f h k mv next = let (s, l, next_mv) = next a in (s, l, (cc, cc))
bind-Returns (fails e) f h k mv next = ([], inl refl, mv)
bind-Returns panics f h k mv next = ([], inl refl, mv)

bind_exit-silent :
    {A B : Type 0} (r : Exit A) (f : A → M B) (k : History)
    → ((a : A) → (f a k).1 ≡ k)
    → (bind_exit r f k).1 ≡ k
bind_exit-silent (returns a) f k h = h a
bind_exit-silent (fails e) f k h = refl
bind_exit-silent panics f k h = refl

module _ (g : Guest) (m : Module) where
  module _ (exported : m.free_func ≡ true) where
    get_result_str-Drops : (ptr : ℕ) (h : History) → Drops ptr h (get_result_str g m ptr h).1
    unfolding get_result_str
    get_result_str-Drops ptr h =
        let offset = u32 (ptr / 4294967296) in
        let size = u32 ptr in
        elim (Bool-cases (eqb (u32 (ptr / 4294967296)) 0)) [
          | inl e ↦ rw e (
            [],
            inl refl,
            read_string-Moves g m exported _ _ h,
            read_string-Grows g m exported _ _ h,
          )
          | inr e ↦ rw e (
            offset ∷ [],
            inr refl,
            ground (
              arith,
              read_string-Moves g m exported offset size h,
              free_reported-Moves g m exported offset size (read_string g m offset size h).1,
            ),
            λ x mem.
                free_reported-Grows g m exported offset size (read_string g m offset size h).1 x
                  (read_string-Grows g m exported offset size h x mem),
          )
        ]

    result_of-Drops :
        (r : EventFuncResult) (h : History) → Drops r.str_ptr_encoded h (result_of g m r h).1
    unfolding result_of
    result_of-Drops r h =
        rw
          (bind_exit-silent {B = ℕ × Text} (get_result_str g m r.str_ptr_encoded h).0
            (λ text. pure (r.errno, text)) (get_result_str g m r.str_ptr_encoded h).1 (λ a. refl))
          (get_result_str-Drops r.str_ptr_encoded h)

    -- The result is the one that the bytes give.
    dropped :
        (offset size : ℕ) (bytes : Text) (r : EventFuncResult) (h k : History)
        → Mem (read offset size (some bytes)) h
        → decode_result bytes ≡ some r
        → Drops r.str_ptr_encoded h k
        → Returns h k
    dropped offset size bytes r h k mem d (s, inl e, mv, grows) = (s, inl e, mv)
    dropped offset size bytes r h k mem d (s, inr e, mv, grows) = (
      s,
      inr (
        u32 (r.str_ptr_encoded / 4294967296),
        e,
        (offset, size, bytes, r, grows (read offset size (some bytes)) mem, d, refl),
      ),
      mv,
    )

    of_decoded-Returns :
        (offset size : ℕ) (bytes : Text) (r : Option EventFuncResult) (h : History)
        → Mem (read offset size (some bytes)) h
        → decode_result bytes ≡ r
        → Returns h (bind_exit (or_eof r h).0 (result_of g m) (or_eof r h).1).1
    unfolding or_eof
    of_decoded-Returns offset size bytes none h mem d = ([], inl refl, (refl, refl))
    of_decoded-Returns offset size bytes (some r) h mem d =
        dropped offset size bytes r h _ mem d (result_of-Drops r h)

    -- What `get_result` does with the bytes that it reads
    of_read : ℕ → ℕ → Option Text → M (ℕ × Text)
    of_read offset size got = do
      bytes ← found offset size got
      result ← decoded bytes
      result_of g m result

    of_read-Returns :
        (offset size o s : ℕ) (got : Option Text) (h : History)
        → Mem (read o s got) h
        → Returns h (of_read offset size got h).1
    unfolding of_read found decoded
    of_read-Returns offset size o s none h mem = ([], inl refl, (refl, refl))
    of_read-Returns offset size o s (some bytes) h mem =
        of_decoded-Returns o s bytes (decode_result bytes) h mem refl

    get_result-Returns :
        (offset size : ℕ) (h : History) → Returns h (get_result g m offset size h).1
    unfolding get_result read_memory taken freed of_read
    get_result-Returns offset size h =
        of_read-Returns offset size (u32 offset) (u32 size)
          (g.memory_read h (u32 offset) (u32 size))
          (read (u32 offset) (u32 size) (g.memory_read h (u32 offset) (u32 size)) ∷ h) mem-cons_self

    -- A call of another function than malloc and free takes and gives back nothing.
    main-Moves :
        (exports : Bool) (args : List ℕ) (h : History)
        → Moves [] [] h (call g m exports main_func args h).1
    unfolding call
    main-Moves false args h = (refl, refl)
    main-Moves true args h = call-Moves g m main_func args h

    call_main-Returns :
        (param result : ℕ × ℕ) (h : History) → Returns h (call_main g m param result h).1
    unfolding call_main taken freed
    call_main-Returns (param, size) (result, result_size) h =
        bind-Returns
          (call g m m.main_func main_func (result ∷ param ∷ size ∷ []) (logged calling_main ∷ h)).0
          (λ results. get_result g m result result_size) h _
          (ground
            (arith, main-Moves m.main_func (result ∷ param ∷ size ∷ []) (logged calling_main ∷ h)))
          (λ a. get_result-Returns result result_size _)

    answer-Malloc :
        (n : ℕ) (h k : History) (r : Result Error (List ℕ))
        → Moves [] [] h k
        → Malloc h (
            bind_exit
              (of_answer g m malloc_func (n ∷ []) r k).0
              (first g m)
              (of_answer g m malloc_func (n ∷ []) r k).1)
    unfolding of_answer first taken freed
    answer-Malloc n h k (ok []) mv = died _ mv
    answer-Malloc n h k (ok (a ∷ vs)) mv = took a _ (cc, cc)
    answer-Malloc n h k (err e) mv = refused e _ mv

    called-Malloc :
        (exports : Bool) (n : ℕ) (h : History)
        → Malloc h (
            bind_exit
              (call g m exports malloc_func (n ∷ []) h).0
              (first g m)
              (call g m exports malloc_func (n ∷ []) h).1)
    unfolding call
    called-Malloc false n h = died h (refl, refl)
    called-Malloc true n h =
        let (quiet, mv) = log_all-Moves g m (g.logs h malloc_func (n ∷ [])) h in
        rw quiet (answer-Malloc n h _ (g.answer h malloc_func (n ∷ [])) mv)

    malloc-Malloc : (n : ℕ) (h : History) → Malloc h (malloc g m n h)
    unfolding malloc
    malloc-Malloc n h = called-Malloc m.malloc_func n h

    -- Every block that is taken is given back, the last one first, and at most one more before them.
    abbrev Settles : History → History → Type 0
    Settles h k = (ts s : List ℕ) × Block s k × Moves ts (reverse ts ++ s) h k

    reserved-Settles :
        (param : ℕ × ℕ) (h : History) (r : Exit ℕ × History)
        → Malloc h r
        → Settles h
            (bind_exit {A = ℕ × ℕ} {B = ℕ × Text}
              (bind_exit {B = ℕ × ℕ} r.0 (λ ptr. pure (ptr, 16)) r.1).0
              (λ result.
                deferring (free_quietly g m result.0 result.1) (call_main g m param result))
              (bind_exit {B = ℕ × ℕ} r.0 (λ ptr. pure (ptr, 16)) r.1).1).1
    reserved-Settles param h r (took a k mv) =
        let (s, l, main_mv) = call_main-Returns param (a, 16) k in
        (
          a ∷ [],
          s,
          Block-Grows s _ _ (free_quietly-Grows g m exported a 16 (call_main g m param (a, 16) k).1)
              l,
          ground (arith, free_quietly-Moves g m exported a 16 (call_main g m param (a, 16) k).1),
        )
    reserved-Settles param h r (refused e k mv) = ([], [], inl refl, mv)
    reserved-Settles param h r (died k mv) = ([], [], inl refl, mv)

    run_with-Settles : (param : ℕ × ℕ) (h : History) → Settles h (run_with g m param h).1
    unfolding run_with reserve_memory_for_result
    run_with-Settles param h = reserved-Settles param h _ (malloc-Malloc 16 h)

    -- The block that the parameter takes, if it cannot be written
    abbrev Leaks : ℕ → History → Exit (ℕ × Text) × History → Type 0
    Leaks size h r = (a : ℕ) × (r.0 ≡ fails (write_out_of_range a size)) × Moves (a ∷ []) [] h r.1

    written-Settles :
        (offset size : ℕ) (done : Bool) (h k : History)
        → Moves (offset ∷ []) [] h k
        → let r =
            bind_exit {A = ℕ × ℕ} {B = ℕ × Text}
              (written offset size done k).0
              (λ param. deferring (free_quietly g m param.0 param.1) (run_with g m param))
              (written offset size done k).1 in
          Settles h r.1 ⊎ Leaks size h r
    unfolding written
    written-Settles offset size false h k mv = inr (offset, refl, mv)
    written-Settles offset size true h k mv =
        let (ts, s, l, run_mv) = run_with-Settles (offset, size) k in
        let (quiet_taken, quiet_freed) =
          free_quietly-Moves g m exported offset size (run_with g m (offset, size) k).1 in
        inl (
          ts ++ (offset ∷ []),
          s,
          Block-Grows s _ _
              (free_quietly-Grows g m exported offset size (run_with g m (offset, size) k).1) l,
          (
            simp (quiet_taken, run_mv.0, mv.0, append_assoc),
            simp (quiet_freed, run_mv.1, mv.1, reverse-append, append_assoc),
          ),
        )

    started-Settles :
        (bytes : Text) (h : History) (r : Exit ℕ × History)
        → Malloc h r
        → let w =
            bind_exit {B = ℕ × ℕ} r.0
              (λ offset. write_memory g m (u32 offset) bytes >>= written offset (length bytes))
              r.1 in
          let end =
            bind_exit {A = ℕ × ℕ} {B = ℕ × Text} w.0
              (λ param. deferring (free_quietly g m param.0 param.1) (run_with g m param))
              w.1 in
          Settles h end.1 ⊎ Leaks (length bytes) h end
    unfolding write_memory taken freed
    started-Settles bytes h r (took a k mv) =
        written-Settles a (length bytes) (g.memory_write k (u32 a) bytes) h
          (wrote (u32 a) bytes (g.memory_write k (u32 a) bytes) ∷ k) mv
    started-Settles bytes h r (refused e k mv) = inl ([], [], inl refl, mv)
    started-Settles bytes h r (died k mv) = inl ([], [], inl refl, mv)

  -- However the guest answers, and however Run ends, a panic included: every block that malloc handed
  -- out during Run has been given back by one call of free, the last one first, with at most one
  -- block before them, whose address is the upper half of the pointer of a result that was read from
  -- the memory; unless the parameter could not be written, when Run returns that error and its block
  -- is never given back. The guest exports free.
  pub run_blocks :
      (bytes : Text) (h : History)
      → m.free_func ≡ true
      → ((ts s : List ℕ) × Block s (run g m bytes h).1
          × (taken (run g m bytes h).1 ≡ ts ++ taken h)
          × (freed (run g m bytes h).1 ≡ (reverse ts ++ s) ++ freed h))
        ⊎ ((a : ℕ) × ((run g m bytes h).0 ≡ fails (write_out_of_range a (length bytes)))
            × (taken (run g m bytes h).1 ≡ a ∷ taken h)
            × (freed (run g m bytes h).1 ≡ freed h))
  unfolding run write_to_memory
  run_blocks bytes h exported =
      elim (started-Settles exported bytes h _ (malloc-Malloc exported (length bytes) h)) [
        | inl (ts, s, l, mv) ↦ inl (ts, s, l, mv.0, mv.1)
        | inr (a, e, mv) ↦ inr (a, e, mv.0, mv.1)
      ]
