-- ===== src/Collection/Tests.antt =====
-- Instances of the theorems on pkg/collection at small queues, sets and maps of numbers.
use goico.Shared.{ℕ, ◌≡◌, refl, List, [], ◌∷◌}
use goico.Collection.Queue.{
  copy_front, SyncQueue, dequeue_n, dequeue, queue, dequeue_all, dequeue_clamped,
}
use goico.Collection.Fifo.{
  Call, queues, dequeues, dequeues_n, dequeues_all, serve, serve_all, first_in_first_out,
}
use goico.Collection.Set.{Set}
use goico.Shared.Outcome.{returns}
use goico.Shared.Key.{number_keys}
use goico.Shared.GoMap.{lookup, GoMap, Distinct}
use goico.Shared.Int.{pos}

abbrev three : SyncQueue ℕ
three = record { items = 4 ∷ 5 ∷ 6 ∷ [] }

abbrev some_calls : List (Call ℕ)
some_calls = queues 7 ∷ dequeues ∷ dequeues_n (pos 2) ∷ queues 8 ∷ dequeues_all 1 ∷ []

some_calls_run :
    serve_all 0 some_calls three ≡ returns (4 ∷ 5 ∷ 6 ∷ 7 ∷ [], record { items = 8 ∷ [] })
unfolding serve_all serve dequeue queue dequeue_n dequeue_all dequeue_clamped copy_front
some_calls_run = refl

first_in_first_out_example : ◌≡◌ {A = List ℕ} (4 ∷ 5 ∷ 6 ∷ 7 ∷ 8 ∷ []) (4 ∷ 5 ∷ 6 ∷ 7 ∷ 8 ∷ [])
first_in_first_out_example =
    first_in_first_out 0 some_calls three (record { items = 8 ∷ [] }) (4 ∷ 5 ∷ 6 ∷ 7 ∷ [])
      some_calls_run

abbrev two_elements : Set ℕ
two_elements = (4, tt) ∷ (6, tt) ∷ []

two_elements-Distinct : Distinct two_elements
two_elements-Distinct = ((unfold lookup in refl), ((unfold lookup in refl), tt))

abbrev two_entries : GoMap ℕ ℕ
two_entries = (4, 40) ∷ (6, 60) ∷ []

two_entries-Distinct : Distinct two_entries
two_entries-Distinct = ((unfold lookup in refl), ((unfold lookup in refl), tt))
