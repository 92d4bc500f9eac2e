-- ===== src/Wasm/Tests.antt =====
-- Instances of the theorems on pkg/runtimes/wasm at a guest that hands out fixed blocks.
use goico.Shared.{
  ℕ, ◌≡◌, refl, ◌⊎◌, true, false, none, some, List, [], ◌∷◌, ◌++◌, arith, eqb, if◌then◌else◌,
}
use goico.Wasm.Guest.{
  Error, guest_error, write_out_of_range, Function, ver_func, init_func, malloc_func, free_func,
  guest_message, called, read, logged, History, Guest, returns, fails,
}
use goico.Wasm.Module.{Module, found, decoded, written, run}
use goico.Env.Os.{Text}
use goico.Shared.Result.{Result, ok, err}
use mathlib.Core.List.{reverse}
use goico.Wasm.New.{Wazero, new_module, looked_up, new_module_lem}
use goico.Wasm.Runtime.{Outside}
use goico.Wasm.Moves.{taken, freed}
use goico.Wasm.Blocks.{Block, run_blocks}
use goico.Wasm.Results.{Answers, bytes_of_u64, packed, run_lem}

abbrev answers_of : Function → List ℕ → Result Error (List ℕ)
answers_of malloc_func (n ∷ []) = if eqb n 16 then ok (128 ∷ []) else ok (64 ∷ [])
answers_of malloc_func _ = err (guest_error 1)
answers_of ver_func args = ok (4294967297 ∷ [])
answers_of free_func args = err (guest_error 2)
answers_of _ args = ok []

abbrev hi : Text
hi = 104 ∷ 105 ∷ []

-- A guest that reports number 3 and a string of two bytes at 200, and logs that string
abbrev guest : Guest
guest = record {
  exported = λ f. true;
  logs = λ h f args. (1, 200, 2) ∷ [];
  answer = λ h f args. answers_of f args;
  memory_write = λ h offset bytes. true;
  memory_read = λ h offset size.
      if eqb size 16 then some (bytes_of_u64 3 ++ bytes_of_u64 (packed 200 2)) else some hi;
}

abbrev module_made : Module
module_made = looked_up guest none 1

abbrev wazero : Wazero
wazero = record { host_module = none; wasi_panics = false; instantiate = ok guest }

answers : Answers guest module_made hi 64 128 3 200 2 hi []
answers = record {
  exports_main = refl;
  exports_malloc = refl;
  exports_free = refl;
  takes_param = refl;
  writes_param = λ k. refl;
  takes_result = λ k. refl;
  answers_main = λ k. refl;
  leaves_result = λ k. refl;
  leaves_text = λ k r. refl;
  errno_fits = omega arith;
  offset_fits = omega arith;
  size_fits = omega arith;
}

run_lem_example : (run guest module_made hi []).0 ≡ returns (3, hi)
run_lem_example = run_lem guest module_made hi 64 128 3 200 2 hi [] answers

-- The string, the result and the parameter are given back, in this order.
frees_in_order : freed (run guest module_made hi []).1 ≡ 64 ∷ 128 ∷ 200 ∷ []
unfolding freed run written found decoded
frees_in_order = refl

run_blocks_example :
    ((ts s : List ℕ) × Block s (run guest module_made hi []).1
      × (taken (run guest module_made hi []).1 ≡ ts ++ taken [])
      × (freed (run guest module_made hi []).1 ≡ (reverse ts ++ s) ++ freed []))
    ⊎ ((a : ℕ) × ((run guest module_made hi []).0 ≡ fails (write_out_of_range a 2))
        × (taken (run guest module_made hi []).1 ≡ a ∷ taken [])
        × (freed (run guest module_made hi []).1 ≡ freed []))
run_blocks_example = run_blocks guest module_made hi [] refl

-- What NewModule has done
abbrev made_history : History
made_history =
    called init_func [] (ok [])
    ∷ logged (guest_message 1 hi)
    ∷ read 200 2 (some hi)
    ∷ called ver_func [] (ok (4294967297 ∷ []))
    ∷ logged (guest_message 1 hi)
    ∷ read 200 2 (some hi)
    ∷ []

makes : new_module wazero none [] ≡ (returns module_made, made_history)
unfolding new_module
makes = refl

new_module_lem_example :
    (true ≡ true)
    × (module_made.main_func ≡ true)
    × (module_made.init_func ≡ true)
    × (module_made.malloc_func ≡ true)
    × (module_made.free_func ≡ true)
    × (module_made.log_fn ≡ none)
    × (module_made.ver ≡ 1)
new_module_lem_example = new_module_lem wazero guest none [] made_history module_made refl makes

abbrev no_cache : Outside ℕ
no_cache = record {
  mkdir_all = λ dir. none;
  mkdir_temp = λ dir. ok (dir ++ hi);
  new_cache = λ dir. err 5;
  remove_all = λ dir. none;
}
