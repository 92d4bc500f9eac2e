-- ===== src/Database/Tests.antt =====
-- Tests of pkg/database on a store in memory, and its theorems at concrete rows.
use mathlib.Core.List.{Mem}
use goico.Shared.Key.{bytes_keys}
use goico.Shared.GoMap.{GoMap, lookup, remove}
use goico.Shared.Result.{Result, ok, err}
use goico.Database.Key.{Bytes, encode, encodepreffix}
use goico.Database.Order.{has_prefix, in_bounds}
use goico.Database.UpperBound.{key_upper_bound, in_bounds-key_upper_bound}
use goico.Database.Engine.{Engine, Got, Scan, Reads, select, put_sorted}
use goico.Database.Table.{Table, Marshaler, row_key, add, get, all, finish_all, decode_rows}
use goico.Database.Table.Rows.{Healthy, table_prefix, get-add}
use goico.Database.Table.Refinement.{
  Call, call_add, call_update, call_delete, call_get, Answer, Available, RoundTrips, run, run_rows,
  run-run_rows,
}
use goico.Database.Table.Refinement
use goico.Database.Table.Listing.{decode_all, all-decode_all}
use goico.Database.Table.Sharing.{all-add, all-add_other, joined_names_share}
use goico.Shared.{
  ◌⊎◌, false, sym, ap, List, ℕ, ◌≡◌, refl, true, Option, none, some, [], ◌∷◌, ◌++◌, arith,
}

-- A store that never fails: the entries themselves.
reads_lem :
    (held : Option Bytes)
    → Reads {E = ℕ} held (elim held [ some v ↦ Got.found v none | none ↦ Got.not_found ])
reads_lem (some v) = refl
reads_lem none = refl

abbrev memory : Engine ℕ
memory = record {
  Db = GoMap Bytes Bytes;
  entries = λ d. d;
  set_key = λ k v d. (put_sorted k v d, none);
  delete_key = λ k d. (remove k d, none);
  get_key = λ k d. elim (lookup k d) [ some v ↦ Got.found v none | none ↦ Got.not_found ];
  new_iter = λ lower upper d. Scan.opened (select (in_bounds lower upper) d) none;
  set_key_law = λ k v d done. refl;
  delete_key_law = λ k d done. refl;
  get_key_law = λ k d. reads_lem (lookup k d);
  new_iter_law = λ lower upper d. refl;
}

-- Rows are numbers, each its own id.
abbrev read_row : Bytes → Result ℕ ℕ
read_row (n ∷ []) = ok n
read_row other = err 1

abbrev numbers : Marshaler ℕ ℕ
numbers = record { marshal = λ n. ok (n ∷ [], n ∷ []); unmarshal = read_row }

-- The tables "user" and "users" of tenant "t".
abbrev user : Table
user = record { name = b'u' ∷ b's' ∷ b'e' ∷ b'r' ∷ []; tenant = b't' ∷ [] }

abbrev users : Table
users = record { name = b'u' ∷ b's' ∷ b'e' ∷ b'r' ∷ b's' ∷ []; tenant = b't' ∷ [] }

-- A table of tenant "tu" with the same joined name as "user" of tenant "t".
abbrev other_tenant : Table
other_tenant = record { name = b's' ∷ b'e' ∷ b'r' ∷ []; tenant = b't' ∷ b'u' ∷ [] }

abbrev start : GoMap Bytes Bytes
start = (b'0' ∷ b't' ∷ b'u' ∷ b's' ∷ b'e' ∷ b'r' ∷ 5 ∷ [], 5 ∷ []) ∷ []

upper_of_255s : key_upper_bound (7 ∷ 255 ∷ 255 ∷ []) ≡ some (8 ∷ [])
unfolding key_upper_bound
upper_of_255s = refl

no_upper : key_upper_bound (255 ∷ []) ≡ none
unfolding key_upper_bound
no_upper = refl

get_both : get memory numbers user (7 ∷ []) (add memory numbers user 7 start).0 ≡ ok (some 7)
unfolding get add encode row_key put_sorted lookup
get_both = refl

all_sorted : all memory numbers user (add memory numbers user 3 start).0 ≡ ok (3 ∷ 5 ∷ [])
unfolding all add encode encodepreffix row_key put_sorted lookup key_upper_bound finish_all
    decode_rows
all_sorted = refl

in_bounds-key_upper_bound_example :
    in_bounds (7 ∷ 255 ∷ []) (key_upper_bound (7 ∷ 255 ∷ [])) (7 ∷ 255 ∷ 1 ∷ []) ≡ true
in_bounds-key_upper_bound_example =
    in_bounds-key_upper_bound (7 ∷ 255 ∷ []) (7 ∷ 255 ∷ 1 ∷ []) (omega arith) (omega arith)

get-add_example : get memory numbers user (7 ∷ []) (add memory numbers user 7 start).0 ≡ ok (some 7)
unfolding add encode row_key put_sorted lookup
get-add_example =
    get-add memory numbers user 7 (7 ∷ []) (7 ∷ []) (7 ∷ []) start refl refl refl tt refl

all-decode_all_example :
    all memory numbers user start
    ≡ decode_all read_row (select (has_prefix (table_prefix user)) start)
all-decode_all_example = all-decode_all memory numbers user start (omega arith) (omega arith) refl

all-add_other_example :
    ((has_prefix (users.tenant ++ users.name) ((user.tenant ++ user.name) ++ 3 ∷ []) ≡ true)
      × Mem {A = ℕ} 3 [])
    ⊎ ((has_prefix (users.tenant ++ users.name) ((user.tenant ++ user.name) ++ 3 ∷ []) ≡ false)
        × (all memory numbers users start ≡ ok []))
unfolding all encode encodepreffix row_key put_sorted lookup key_upper_bound finish_all decode_rows
    add
all-add_other_example =
    all-add_other memory numbers users user 3 (3 ∷ []) (3 ∷ []) start [] refl refl refl
      (omega arith) (omega arith) (omega arith) refl refl refl

all-add_example : Mem {A = ℕ} 3 (3 ∷ 5 ∷ [])
unfolding all add encode encodepreffix row_key put_sorted lookup key_upper_bound finish_all
    decode_rows
all-add_example =
    all-add memory numbers user 3 (3 ∷ []) (3 ∷ []) start (3 ∷ 5 ∷ []) refl refl refl (omega arith)
      (omega arith) refl refl

joined_names_share_example :
    (add memory numbers user 3 start ≡ add memory numbers other_tenant 3 start)
    × (get memory numbers user (5 ∷ []) start ≡ get memory numbers other_tenant (5 ∷ []) start)
    × (all memory numbers user start ≡ all memory numbers other_tenant start)
joined_names_share_example =
    joined_names_share memory numbers user other_tenant 3 (5 ∷ []) start refl

held-Healthy :
    (held : Option Bytes)
    → Healthy {E = ℕ} (elim held [ some v ↦ Got.found v none | none ↦ Got.not_found ])
held-Healthy (some v) = refl
held-Healthy none = tt

memory-Available : Available memory numbers user
memory-Available = record {
  sets = λ k v db. refl;
  deletes = λ k db. refl;
  gets = λ k db. held-Healthy (lookup k db);
}

numbers-RoundTrips : RoundTrips memory numbers user
numbers-RoundTrips s id buf e = let e' : buf ≡ s ∷ [] = sym (ap snd_of e) in rw e' refl
  where
    snd_of : Result ℕ (Bytes × Bytes) → Bytes
    snd_of (ok (i, b)) = b
    snd_of (err x) = []

abbrev calls : List (Call ℕ)
calls =
    call_add 5
    ∷ call_add 7
    ∷ call_update 5
    ∷ call_delete (7 ∷ [])
    ∷ call_get (5 ∷ [])
    ∷ call_get (7 ∷ [])
    ∷ []

run-run_rows_example : run memory numbers user calls [] ≡ run_rows numbers calls (λ id. none)
run-run_rows_example =
    run-run_rows memory numbers user memory-Available numbers-RoundTrips calls [] refl

calls_answer :
    run_rows {E = ℕ} numbers calls (λ id. none)
    ≡ Refinement.done none
      ∷ Refinement.done none
      ∷ Refinement.done none
      ∷ Refinement.done none
      ∷ Refinement.row (ok (some 5))
      ∷ Refinement.row (ok none)
      ∷ []
unfolding run_rows
calls_answer = refl
