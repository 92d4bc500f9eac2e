-- ===== src/Wasm/Module.antt =====
-- The methods of a module in pkg/runtimes/wasm/module.go: a call of a guest's function, `log`,
-- `free`, and `Run` with what it uses. A nil function that is called panics.
use goico.Shared.{
  ◌/◌, ◌*◌, ℕ, ◌+◌, ◌%◌, Bool, true, false, Option, none, some, List, [], ◌∷◌, eqb, if◌then◌else◌,
  length,
}
use goico.Env.Os.{Text}
use goico.Shared.Result.{Result, ok, err}
use goico.Wasm.Guest.{
  Error, write_out_of_range, read_out_of_range, unexpected_eof, Function, main_func, malloc_func,
  free_func, calling_main, error_freeing, read_failed, guest_message, log_function_failed, called,
  wrote, read, logged, log_function, History, GuestLog, Guest, Exit, returns, fails, panics, M,
  ◌>>=◌, ◌>>◌, pure, fail, panic, log_message, deferring,
}

-- `ModuleType`, a uint32
abbrev pub ModuleType : Type 0
ModuleType = ℕ

-- logFn, with the answer that the caller's function gives.
abbrev pub LogFn : Type 0
LogFn = Option (History → ℕ → Text → Option Error)

pub record Module : Type 0 where
  pub main_func : Bool
  pub init_func : Bool
  pub malloc_func : Bool
  pub free_func : Bool
  pub log_fn : LogFn
  pub ver : ModuleType

pub record EventFuncResult : Type 0 where
  pub errno : ℕ
  pub str_ptr_encoded : ℕ

abbrev pub type_default : ModuleType
type_default = 0

abbrev pub type_rust : ModuleType
type_rust = 1

-- uint32(n)
abbrev pub u32 : ℕ → ℕ
u32 n = n % 4294967296

-- The uint64 at the front of some bytes, in little-endian order, and the bytes behind it:
-- `binary.Read` of a field.
unfoldable pub read_u64 : Text → Option (ℕ × Text)
read_u64 (a ∷ b ∷ c ∷ d ∷ e ∷ f ∷ g ∷ h ∷ rest) = some (
  a
      + 256 * b
      + 65536 * c
      + 16777216 * d
      + 4294967296 * e
      + 1099511627776 * f
      + 281474976710656 * g
      + 72057594037927936 * h,
  rest,
)
read_u64 _ = none

-- `binary.Read(_, binary.LittleEndian, &result)`
unfoldable pub decode_result : Text → Option EventFuncResult
unfolding read_u64
decode_result data1 = elim (read_u64 data1) [
  | none ↦ none
  | some (errno, rest) ↦ elim (read_u64 rest) [
    | none ↦ none
    | some (ptr, _) ↦ some (record { errno = errno; str_ptr_encoded = ptr })
  ]
]

-- What follows a read, a decoding and a write
unfoldable pub found : ℕ → ℕ → Option Text → M Text
found offset size none = fail (read_out_of_range offset size)
found offset size (some bytes) = pure bytes

unfoldable pub or_eof : Option EventFuncResult → M EventFuncResult
or_eof none = fail unexpected_eof
or_eof (some result) = pure result

unfoldable pub decoded : Text → M EventFuncResult
unfolding decode_result or_eof
decoded bytes = or_eof (decode_result bytes)

unfoldable pub written : ℕ → ℕ → Bool → M (ℕ × ℕ)
written offset size false = fail (write_out_of_range offset size)
written offset size true = pure (offset, size)

module _ (g : Guest) (m : Module) where
  -- Memory().Read and Memory().Write
  unfoldable pub read_memory : ℕ → ℕ → M (Option Text)
  read_memory offset size h =
      let got = g.memory_read h offset size in (returns got, read offset size got ∷ h)

  unfoldable pub write_memory : ℕ → Text → M Bool
  write_memory offset bytes h =
      let done = g.memory_write h offset bytes in (returns done, wrote offset bytes done ∷ h)

  -- The call of the caller's log function
  unfoldable pub call_log_fn : LogFn → ℕ → Text → M (Unit {0})
  call_log_fn none level msg h = pure tt h
  call_log_fn (some f) level msg h = elim (f h level msg) [
    | none ↦ (returns tt, log_function level msg ∷ h)
    | some e ↦ (returns tt, logged (log_function_failed e) ∷ log_function level msg ∷ h)
  ]

  -- `log` without what follows a read: `string(nil)` is empty.
  unfoldable pub log_bytes : ℕ → ℕ → ℕ → Option Text → M (Unit {0})
  unfolding call_log_fn
  log_bytes level offset size none = do
    log_message (read_failed offset size)
    log_message (guest_message level [])
    call_log_fn m.log_fn level []
  log_bytes level offset size (some buf) = do
    log_message (guest_message level buf)
    call_log_fn m.log_fn level buf

  -- `log`
  unfoldable pub log : GuestLog → M (Unit {0})
  unfolding read_memory log_bytes
  log (level, offset, size) = do
    buf ← read_memory (u32 offset) (u32 size)
    log_bytes (u32 level) (u32 offset) (u32 size) buf

  -- What the guest logs during a call
  unfoldable pub log_all : List GuestLog → M (Unit {0})
  unfolding log
  log_all [] = pure tt
  log_all (l ∷ ls) = log l >> log_all ls

  unfoldable pub of_answer : Function → List ℕ → Result Error (List ℕ) → M (List ℕ)
  of_answer f args (ok values) h = (returns values, called f args (ok values) ∷ h)
  of_answer f args (err e) h = (fails e, called f args (err e) ∷ h)

  -- `call`; the Boolean tells whether the function is not nil.
  unfoldable pub call : Bool → Function → List ℕ → M (List ℕ)
  unfolding log_all of_answer
  call false f args h = (panics, h)
  call true f args h =
      let answer = g.answer h f args in (log_all (g.logs h f args) >> of_answer f args answer) h

  -- `results[0]`
  unfoldable pub first : List ℕ → M ℕ
  first [] h = (panics, h)
  first (v ∷ vs) h = (returns v, h)

  -- The call of malloc, with the first of its results
  unfoldable pub malloc : ℕ → M ℕ
  unfolding call first
  malloc n = do results ← call m.malloc_func malloc_func (n ∷ []); first results

  -- `free`
  unfoldable pub free : ℕ → ℕ → M (List ℕ)
  unfolding call
  free offset size =
      if eqb m.ver type_default
      then call m.free_func free_func (offset ∷ [])
      else call m.free_func free_func (offset ∷ size ∷ [])

  -- The deferred call of free in `Run`: the warning is built and never sent.
  unfoldable pub quietly : Exit (List ℕ) → M (Unit {0})
  quietly (returns v) = pure tt
  quietly (fails e) = pure tt
  quietly panics = panic

  unfoldable pub free_quietly : ℕ → ℕ → M (Unit {0})
  unfolding free quietly
  free_quietly offset size h = quietly (free offset size h).0 (free offset size h).1

  -- The deferred call of free in `getResultStr`, which logs the error
  unfoldable pub reported : Exit (List ℕ) → M (Unit {0})
  reported (returns v) = pure tt
  reported (fails e) = log_message (error_freeing e)
  reported panics = panic

  unfoldable pub free_reported : ℕ → ℕ → M (Unit {0})
  unfolding free reported
  free_reported offset size h = reported (free offset size h).0 (free offset size h).1

  -- `getResultStr` without the deferred call
  unfoldable pub read_string : ℕ → ℕ → M Text
  unfolding read_memory
  read_string offset size = do bytes ← read_memory offset size; found offset size bytes

  -- `getResultStr`
  unfoldable pub get_result_str : ℕ → M Text
  unfolding read_string free_reported
  get_result_str encoded_ptr =
      let offset = u32 (encoded_ptr / 4294967296) in
      let size = u32 encoded_ptr in
      if eqb offset 0
      then read_string offset size
      else deferring (free_reported offset size) (read_string offset size)

  -- `getResult`
  unfoldable pub result_of : EventFuncResult → M (ℕ × Text)
  unfolding get_result_str
  result_of result = do text ← get_result_str result.str_ptr_encoded; pure (result.errno, text)

  unfoldable pub get_result : ℕ → ℕ → M (ℕ × Text)
  unfolding read_memory result_of
  get_result offset size = do
    got ← read_memory (u32 offset) (u32 size)
    bytes ← found offset size got
    result ← decoded bytes
    result_of result

  -- `reserveMemoryForResult`: the struct has two fields of 8 bytes.
  unfoldable pub reserve_memory_for_result : M (ℕ × ℕ)
  unfolding malloc
  reserve_memory_for_result = do ptr ← malloc 16; pure (ptr, 16)

  -- `writeToMemory`
  unfoldable pub write_to_memory : Text → M (ℕ × ℕ)
  unfolding malloc write_memory
  write_to_memory bytes = do
    offset ← malloc (length bytes)
    done ← write_memory (u32 offset) bytes
    written offset (length bytes) done

  -- `Run` once the parameter is written and the result's memory is reserved
  unfoldable pub call_main : ℕ × ℕ → ℕ × ℕ → M (ℕ × Text)
  unfolding call get_result
  call_main (param, size) (result, result_size) = do
    log_message calling_main
    results ← call m.main_func main_func (result ∷ param ∷ size ∷ [])
    get_result result result_size

  unfoldable pub run_with : ℕ × ℕ → M (ℕ × Text)
  unfolding reserve_memory_for_result free_quietly call_main
  run_with (param, size) = do
    result ← reserve_memory_for_result
    deferring (free_quietly result.0 result.1) (call_main (param, size) result)

  -- `Run`
  unfoldable pub run : Text → M (ℕ × Text)
  unfolding write_to_memory free_quietly run_with
  run bytes = do
    param ← write_to_memory bytes
    deferring (free_quietly param.0 param.1) (run_with param)

-- `Close`, by what the Close of the guest returns
unfoldable pub close : Option Error → Option Error
close none = none
close (some e) = some e
