-- ===== src/Collection/Fifo.antt =====
-- Histories of a `SyncQueue` (pkg/collection/syncqueue.go): first in, first out.
use mathlib.Core.List.{append_assoc, append-nil}
use goico.Shared.Int.{ℤ, pos, negsuc}
use goico.Shared.Outcome.{Outcome, returns, ◌>>=◌, >>=-returns}
use goico.Collection.Queue.{SyncQueue, queue, dequeue, dequeue_n, dequeue_all, dequeue_n-take}
use goico.Shared.{ℕ, ◌≡◌, refl, sym, ap, ◌∙◌, List, [], ◌∷◌, ◌++◌, arith, take-append-drop}

-- A call, or the second half of a DequeueAll that has read the size given.
pub data Call (A : Type 0) : Type 0 where
  queues : A → Call A
  dequeues : Call A
  dequeues_n : ℤ → Call A
  dequeues_all : ℕ → Call A

module _ {A : Type 0} where
  -- What the call returns to its caller, and the queue that it leaves.
  unfoldable pub serve : A → Call A → SyncQueue A → Outcome (List A × SyncQueue A)
  serve z (queues t) s = returns ([], queue t s)
  serve z dequeues s = do (d, s') ← dequeue s; returns (d ∷ [], s')
  serve z (dequeues_n k) s = dequeue_n z k s
  serve z (dequeues_all seen) s = dequeue_all z seen s

  unfoldable pub serve_all : A → List (Call A) → SyncQueue A → Outcome (List A × SyncQueue A)
  serve_all z [] s = returns ([], s)
  serve_all z (c ∷ cs) s = do
    (out, s') ← serve z c s
    (more, s'') ← serve_all z cs s'
    returns (out ++ more, s'')

  abbrev pub arrivals : List (Call A) → List A
  arrivals [] = []
  arrivals (queues t ∷ cs) = t ∷ arrivals cs
  arrivals (_ ∷ cs) = arrivals cs

  abbrev arrival : Call A → List A
  arrival (queues t) = t ∷ []
  arrival _ = []

  arrival-cons : (c : Call A) (cs : List (Call A)) → arrival c ++ arrivals cs ≡ arrivals (c ∷ cs)
  arrival-cons (queues t) cs = refl
  arrival-cons _ cs = refl

  serve-keeps :
      (z : A) (c : Call A) (s s' : SyncQueue A) (out : List A)
      → serve z c s ≡ returns (out, s')
      → out ++ s'.items ≡ s.items ++ arrival c
  unfolding serve queue dequeue dequeue_all
  serve-keeps z (queues t) s s' out h = ground arith
  serve-keeps z dequeues s s' out h = front s.items refl
    where
      front : (items : List A) → s.items ≡ items → out ++ s'.items ≡ s.items ++ []
      front [] e = absurd (ground arith)
      front (d ∷ rest) e = ground (arith, append-nil rest)
  serve-keeps z (dequeues_n (negsuc n)) s s' out h = absurd (cc (dequeue_n-take z (negsuc n) s))
  serve-keeps z (dequeues_n (pos n)) s s' out h =
      ground (arith, dequeue_n-take z (pos n) s, take-append-drop n s.items, append-nil s.items)
  serve-keeps z (dequeues_all n) s s' out h =
      ground (arith, dequeue_n-take z (pos n) s, take-append-drop n s.items, append-nil s.items)

  -- In any history of Queue, Dequeue, DequeueN and DequeueAll that does not panic, what went out,
  -- followed by what is left, is what was there, followed by what came in: values leave in the order
  -- of their arrival, none twice and none lost, also where a DequeueAll works with an old size.
  pub first_in_first_out :
      (z : A) (cs : List (Call A)) (s s' : SyncQueue A) (out : List A)
      → serve_all z cs s ≡ returns (out, s')
      → out ++ s'.items ≡ s.items ++ arrivals cs
  unfolding serve_all
  first_in_first_out z [] s s' out h = ground (arith, append-nil s.items)
  first_in_first_out z (c ∷ cs) s s' out h =
      let ((first, s1), here, rest) = >>=-returns (serve z c s) _ h in
      let ((more, s2), there, last) = >>=-returns (serve_all z cs s1) _ rest in
      let parts : (first ++ more ≡ out) × (s2 ≡ s') = ground (arith, last) in
      rw (← parts.0, ← parts.1)
        (append_assoc first more s2.items
          ∙ ap (λ t. first ++ t) (first_in_first_out z cs s1 s2 more there)
          ∙ sym (append_assoc first s1.items (arrivals cs))
          ∙ ap (λ t. t ++ arrivals cs) (serve-keeps z c s s1 first here)
          ∙ append_assoc s.items (arrival c) (arrivals cs)
          ∙ ap (λ t. s.items ++ t) (arrival-cons c cs))
