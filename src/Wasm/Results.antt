-- ===== src/Wasm/Results.antt =====
-- What `Run` of pkg/runtimes/wasm/module.go returns: the result that the guest leaves in its memory.
use goico.Shared.{
  length, ◌*◌, ◌/◌, ℕ, ◌+◌, ◌%◌, ◌<◌, ◌≡◌, refl, ap, ◌∙◌, ◌≢◌, inl, inr, true, some, List, [], ◌∷◌,
  ◌++◌, arith, eqb, Bool-cases,
}
use goico.Wasm.Guest.{
  calling_main, logged, main_func, wrote, malloc_func, Function, free_func, called, read, History,
  GuestLog, Guest, returns, panics, M, deferring,
}
use goico.Wasm.Module.{
  written, write_memory, write_to_memory, reserve_memory_for_result, first, run, run_with,
  call_main, malloc, Module, u32, read_u64, decode_result, found, or_eof, decoded, read_memory,
  call_log_fn, log_bytes, log, log_all, of_answer, call, free, quietly, free_quietly, reported,
  free_reported, read_string, get_result_str, result_of, get_result,
}
use goico.Env.Os.{Text}
use goico.Shared.Result.{ok}

-- A uint64 in little-endian order, as the guest stores it
abbrev pub bytes_of_u64 : ℕ → Text
bytes_of_u64 n =
    (n % 256)
    ∷ (n / 256 % 256)
    ∷ (n / 65536 % 256)
    ∷ (n / 16777216 % 256)
    ∷ (n / 4294967296 % 256)
    ∷ (n / 1099511627776 % 256)
    ∷ (n / 281474976710656 % 256)
    ∷ (n / 72057594037927936 % 256)
    ∷ []

-- The pointer to a string, as the guest packs it
abbrev pub packed : ℕ → ℕ → ℕ
packed offset size = offset * 4294967296 + size

read_u64-bytes_of :
    (n : ℕ) (rest : Text)
    → n < 18446744073709551616
    → read_u64 (bytes_of_u64 n ++ rest) ≡ some (n, rest)
unfolding read_u64
read_u64-bytes_of n rest h = ap (λ (k : ℕ). some (k, rest)) (omega arith)

-- The struct as it lies in memory is read back.
decode_result-bytes_of :
    (errno ptr : ℕ)
    → errno < 18446744073709551616
    → ptr < 18446744073709551616
    → decode_result (bytes_of_u64 errno ++ bytes_of_u64 ptr)
      ≡ some (record { errno = errno; str_ptr_encoded = ptr })
unfolding decode_result
decode_result-bytes_of errno ptr h k =
    ground (arith, read_u64-bytes_of errno (bytes_of_u64 ptr), read_u64-bytes_of ptr [])

decoded-bytes_of :
    (errno ptr : ℕ) (h : History)
    → errno < 18446744073709551616
    → ptr < 18446744073709551616
    → decoded (bytes_of_u64 errno ++ bytes_of_u64 ptr) h
      ≡ (returns (record { errno = errno; str_ptr_encoded = ptr }), h)
unfolding decoded or_eof
decoded-bytes_of errno ptr h le lp = ap (λ r. or_eof r h) (decode_result-bytes_of errno ptr le lp)

module _ (g : Guest) (m : Module) where
  log_quiet : (l : GuestLog) (h : History) → (log g m l h).0 ≡ returns tt
  unfolding log log_bytes read_memory call_log_fn
  log_quiet (level, offset, size) h = ground arith

  pub log_all_quiet : (ls : List GuestLog) (h : History) → (log_all g m ls h).0 ≡ returns tt
  unfolding log_all
  log_all_quiet [] h = refl
  log_all_quiet (l ∷ ls) h = ground (arith, log_quiet l h, log_all_quiet ls (log g m l h).1)

  -- What the guest logs does not end a call.
  pub call_lem :
      (f : Function) (args : List ℕ) (h : History)
      → (k : History) × (call g m true f args h ≡ of_answer g m f args (g.answer h f args) k)
  unfolding call
  call_lem f args h =
      ((log_all g m (g.logs h f args) h).1, rw (log_all_quiet (g.logs h f args) h) refl)

  call_ok :
      (f : Function) (args values : List ℕ) (h : History)
      → g.answer h f args ≡ ok values
      → (k : History) × (call g m true f args h ≡ (returns values, called f args (ok values) ∷ k))
  unfolding call of_answer
  call_ok f args values h e =
      ((log_all g m (g.logs h f args) h).1, ground (arith, log_all_quiet (g.logs h f args) h))

  call_safe : (f : Function) (args : List ℕ) (h : History) → (call g m true f args h).0 ≢ panics
  unfolding call of_answer
  call_safe f args h e = ground (arith, log_all_quiet (g.logs h f args) h)

  -- A deferred call of free leaves the end of the method as it is.
  deferring-free :
      {A : Type 0} (offset size : ℕ) (body : M A) (h : History)
      → m.free_func ≡ true
      → (deferring (free_quietly g m offset size) body h).0 ≡ (body h).0
  unfolding free_quietly quietly free
  deferring-free offset size body h e =
      let k : History = (body h).1 in
      rw e (
        ground
          (arith, call_safe free_func (offset ∷ []) k, call_safe free_func (offset ∷ size ∷ []) k))

  deferring-free_reported :
      {A : Type 0} (offset size : ℕ) (body : M A) (h : History)
      → m.free_func ≡ true
      → (deferring (free_reported g m offset size) body h).0 ≡ (body h).0
  unfolding free_reported reported free
  deferring-free_reported offset size body h e =
      let k : History = (body h).1 in
      rw e (
        ground
          (arith, call_safe free_func (offset ∷ []) k, call_safe free_func (offset ∷ size ∷ []) k))

  read_string_lem :
      (offset size : ℕ) (text : Text) (h : History)
      → g.memory_read h offset size ≡ some text
      → (read_string g m offset size h).0 ≡ returns text
  unfolding read_string read_memory found
  read_string_lem offset size text h e = rw e refl

  get_result_str_lem :
      (offset size : ℕ) (text : Text) (h : History)
      → offset < 4294967296
      → size < 4294967296
      → m.free_func ≡ true
      → g.memory_read h offset size ≡ some text
      → (get_result_str g m (packed offset size) h).0 ≡ returns text
  unfolding get_result_str
  get_result_str_lem offset size text h lo ls exported e =
      let eo : u32 (packed offset size / 4294967296) ≡ offset = omega arith in
      let es : u32 (packed offset size) ≡ size = omega arith in
      rw (eo, es)
        (elim (Bool-cases (eqb offset 0)) [
          | inl z ↦ rw z (read_string_lem offset size text h e)
          | inr nz ↦ rw nz (
              deferring-free_reported offset size (read_string g m offset size) h exported
              ∙ read_string_lem offset size text h e)
        ])

  get_result_lem :
      (result errno offset size : ℕ) (text : Text) (h : History)
      → let record1 : Text = bytes_of_u64 errno ++ bytes_of_u64 (packed offset size) in
        errno < 18446744073709551616
        → offset < 4294967296
        → size < 4294967296
        → m.free_func ≡ true
        → g.memory_read h (u32 result) 16 ≡ some record1
        → g.memory_read (read (u32 result) 16 (some record1) ∷ h) offset size ≡ some text
        → (get_result g m result 16 h).0 ≡ returns (errno, text)
  unfolding get_result read_memory found result_of
  get_result_lem result errno offset size text h le lo ls exported er es = rw er (
      ground (
        arith,
        decoded-bytes_of errno (packed offset size) (
            read (u32 result) 16 (some (bytes_of_u64 errno ++ bytes_of_u64 (packed offset size)))
            ∷ h),
        get_result_str_lem offset size text (
            read (u32 result) 16 (some (bytes_of_u64 errno ++ bytes_of_u64 (packed offset size)))
            ∷ h),
      ))

  -- What the guest does for a call of Run: malloc hands out the two blocks, the parameter can be
  -- written, and main leaves the struct in the second block, with a pointer to a string.
  pub record Answers (bytes : Text) (param result errno offset size : ℕ) (text : Text) (h : History)
      : Type 0 where
    pub exports_main : m.main_func ≡ true
    pub exports_malloc : m.malloc_func ≡ true
    pub exports_free : m.free_func ≡ true
    pub takes_param : g.answer h malloc_func (length bytes ∷ []) ≡ ok (param ∷ [])
    pub writes_param : (k : History) → g.memory_write k (u32 param) bytes ≡ true
    pub takes_result :
        (k : History)
        → g.answer (wrote (u32 param) bytes true ∷ k) malloc_func (16 ∷ []) ≡ ok (result ∷ [])
    pub answers_main :
        (k : History) → g.answer k main_func (result ∷ param ∷ length bytes ∷ []) ≡ ok []
    pub leaves_result :
        (k : History)
        → g.memory_read
            (called main_func (result ∷ param ∷ length bytes ∷ []) (ok []) ∷ k)
            (u32 result)
            16
          ≡ some (bytes_of_u64 errno ++ bytes_of_u64 (packed offset size))
    pub leaves_text :
        (k : History) (record1 : Text)
        → g.memory_read (read (u32 result) 16 (some record1) ∷ k) offset size ≡ some text
    pub errno_fits : errno < 18446744073709551616
    pub offset_fits : offset < 4294967296
    pub size_fits : size < 4294967296

  module _ (bytes : Text) (param result errno offset size : ℕ) (text : Text) (h : History)
      (a : Answers bytes param result errno offset size text h) where
    malloc_param : (k : History) × (malloc g m (length bytes) h ≡ (returns param, k))
    unfolding malloc first
    malloc_param =
        let (k, e) = call_ok malloc_func (length bytes ∷ []) (param ∷ []) h a.takes_param in
        (called malloc_func (length bytes ∷ []) (ok (param ∷ [])) ∷ k, simp (a.exports_malloc, e))

    main_lem :
        (k : History)
        → (call_main g m (param, length bytes) (result, 16) k).0 ≡ returns (errno, text)
    unfolding call_main
    main_lem k =
        let (k1, e) =
          call_ok main_func (result ∷ param ∷ length bytes ∷ []) [] (logged calling_main ∷ k)
            (a.answers_main _) in
        rw (a.exports_main, e)
          (get_result_lem result errno offset size text _ a.errno_fits a.offset_fits a.size_fits
            a.exports_free (a.leaves_result k1) (a.leaves_text _ _))

    run_with_lem :
        (k : History)
        → (run_with g m (param, length bytes) (wrote (u32 param) bytes true ∷ k)).0
          ≡ returns (errno, text)
    unfolding run_with reserve_memory_for_result malloc first
    run_with_lem k =
        let (k1, e) =
          call_ok malloc_func (16 ∷ []) (result ∷ []) (wrote (u32 param) bytes true ∷ k)
            (a.takes_result k) in
        rw (a.exports_malloc, e)
          (deferring-free result 16 (call_main g m (param, length bytes) (result, 16)) _
              a.exports_free
            ∙ main_lem _)

    -- If the guest answers so, Run returns the number and the string that main left, however the
    -- calls of free end, and whatever the guest logs.
    pub run_lem : (run g m bytes h).0 ≡ returns (errno, text)
    unfolding run write_to_memory write_memory written
    run_lem =
        let (k, e) = malloc_param in
        rw (e, a.writes_param k)
          (deferring-free param (length bytes) (run_with g m (param, length bytes)) _ a.exports_free
            ∙ run_with_lem k)
