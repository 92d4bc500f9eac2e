-- ===== src/Service/Conn.antt =====
-- pkg/service/conn.go: the connections that stay inside the process. A listener of
-- google.golang.org/grpc/test/bufconn is the number of its creation; what its Close and gRPC's Dial
-- return is an input.
use goico.Shared.{
  ℕ, suc, ◌<◌, ◌≡◌, refl, ap, ◌∙◌, ◌≢◌, inl, inr, Option, none, some, List, [], ◌∷◌, ◌++◌, arith,
  Option-cases,
}
use goico.Shared.GoMap.{GoMap, lookup, put, remove, lookup-put, lookup-remove}
use goico.Shared.Key.{bytes_keys, ==-refl, bytes_beq_iff}
use goico.Shared.Result.{Result, ok, err}

-- `BufConn`, less its timeout; `created` counts the calls of `bufconn.Listen`, and `closed` lists the
-- listeners of which Close was called.
pub record BufConn : Type 0 where
  pub listeners : GoMap (List ℕ) ℕ
  pub created : ℕ
  pub closed : List ℕ

-- ErrEmptyAddress, or an error of the library
pub data ConnError (X : Type 0) : Type 0 where
  empty_address : ConnError X
  library_error : X → ConnError X

-- `NewBufConnWithTimeout`
unfoldable pub new_buf_conn : BufConn
new_buf_conn = record { listeners = []; created = 0; closed = [] }

-- `listenerFor`, under the mutex
unfoldable pub listener_for : List ℕ → BufConn → ℕ × BufConn
listener_for addr t = elim (lookup addr t.listeners) [
  | some l ↦ (l, t)
  | none ↦
      (t.created, record t { listeners = put addr t.created t.listeners; created = suc t.created })
]

module _ {X : Type 0} where
  -- `Listen`
  unfoldable pub listen : List ℕ → BufConn → Result (ConnError X) ℕ × BufConn
  unfolding listener_for
  listen [] t = (err empty_address, t)
  listen (a ∷ addr) t = let (l, t') = listener_for (a ∷ addr) t in (ok l, t')

  -- `Dial`: the connection is to the listener, if gRPC's Dial succeeds.
  unfoldable pub dial : Option X → List ℕ → BufConn → Result (ConnError X) ℕ × BufConn
  unfolding listener_for
  dial failed [] t = (err empty_address, t)
  dial failed (a ∷ addr) t =
      let (l, t') = listener_for (a ∷ addr) t in
      (elim failed [ none ↦ ok l | some e ↦ err (library_error e) ], t')

  -- `Tranport`, whose connections are to the listener
  unfoldable pub tranport : List ℕ → BufConn → Result (ConnError X) ℕ × BufConn
  unfolding listener_for
  tranport [] t = (err empty_address, t)
  tranport (a ∷ addr) t = let (l, t') = listener_for (a ∷ addr) t in (ok l, t')

  -- `NewHTTPClient`
  unfoldable pub new_http_client : List ℕ → BufConn → Result (ConnError X) ℕ × BufConn
  unfolding tranport
  new_http_client addr t =
      let (r, t') = tranport addr t in (elim r [ err e ↦ err e | ok l ↦ ok l ], t')

  -- `Close`; `failed` is what the listener's Close returns.
  unfoldable pub close : Option X → List ℕ → BufConn → Option X × BufConn
  close failed addr t = elim (lookup addr t.listeners) [
    | some l ↦ (failed, record t { listeners = remove addr t.listeners; closed = l ∷ t.closed })
    | none ↦ (none, t)
  ]

abbrev pub listeners_of : GoMap (List ℕ) ℕ → List ℕ
listeners_of [] = []
listeners_of ((addr, l) ∷ m) = l ∷ listeners_of m

-- `CloseAll` closes the listeners and keeps them in the map.
unfoldable pub close_all : BufConn → BufConn
close_all t = record t { closed = listeners_of t.listeners ++ t.closed }

-- Numbers of listeners are below the count, and no two addresses share one.
pub record IsSound (t : BufConn) : Type 0 where
  pub below : (addr : List ℕ) (l : ℕ) → lookup addr t.listeners ≡ some l → l < t.created
  pub apart :
      (a b : List ℕ) (l : ℕ) → lookup a t.listeners ≡ some l → lookup b t.listeners ≡ some l → a ≡ b

pub new_buf_conn-IsSound : IsSound new_buf_conn
unfolding new_buf_conn lookup
new_buf_conn-IsSound = record { below = λ addr l h. absurd (cc); apart = λ a b l h g. absurd (cc) }

found :
    (addr : List ℕ) (t : BufConn) (l : ℕ)
    → lookup addr t.listeners ≡ some l
    → listener_for addr t ≡ (l, t)
unfolding listener_for
found addr t l h = rw (listener_for, h) refl

created_new :
    (addr : List ℕ) (t : BufConn)
    → lookup addr t.listeners ≡ none
    → listener_for addr t ≡ (
      t.created,
      record t { listeners = put addr t.created t.listeners; created = suc t.created },
    )
unfolding listener_for
created_new addr t h = rw (listener_for, h) refl

-- What `listener_for` leaves.
record Left (addr : List ℕ) (t : BufConn) (l : ℕ) (t' : BufConn) : Type 0 where
  pub here : lookup addr t'.listeners ≡ some l
  pub sound : IsSound t'
  pub keeps : (a : List ℕ) (k : ℕ) → lookup a t.listeners ≡ some k → lookup a t'.listeners ≡ some k

left :
    (addr : List ℕ) (t : BufConn)
    → IsSound t
    → Left addr t (listener_for addr t).0 (listener_for addr t).1
left addr t s = elim (Option-cases (lookup addr t.listeners)) [
  | inr (l, h) ↦ rw (found addr t l h) (record { here = h; sound = s; keeps = λ a k e. e })
  | inl h ↦ rw (created_new addr t h) (record {
    here = lookup-put addr addr t.created t.listeners ∙ (rw (==-refl addr) refl);
    sound = record {
      below = λ a l e. ground (arith, lookup-put addr a t.created t.listeners, s.below a l, e);
      apart = λ a b l e f. ground (
        arith,
        lookup-put addr a t.created t.listeners,
        lookup-put addr b t.created t.listeners,
        s.below a l,
        s.below b l,
        s.apart a b l,
        bytes_beq_iff addr a,
        bytes_beq_iff addr b,
        e,
        f,
      );
    };
    keeps = λ a k e.
        ground (arith, lookup-put addr a t.created t.listeners, bytes_beq_iff addr a, h, e);
  })
]

-- In a sound state, a server that listens on an address, and a client that dials it or takes a
-- transport for it, get the same listener, whichever comes first; a listener of another address is
-- another one; and after Close the address gets a new one.
pub meet :
    {X : Type 0} (addr other : List ℕ) (a b : ℕ) (t : BufConn)
    → IsSound t
    → (a ∷ addr) ≢ (b ∷ other)
    → (l : ℕ) × (k : ℕ) × (n : ℕ) × ((listen {X = X} (a ∷ addr) t).0 ≡ ok l)
      × ((dial {X = X} none (a ∷ addr) (listen {X = X} (a ∷ addr) t).1).0 ≡ ok l)
      × ((dial {X = X} none (a ∷ addr) t).0 ≡ ok l)
      × ((new_http_client {X = X} (a ∷ addr) (dial {X = X} none (a ∷ addr) t).1).0 ≡ ok l)
      × ((listen {X = X} (b ∷ other) (listen {X = X} (a ∷ addr) t).1).0 ≡ ok k)
      × (k ≢ l)
      × ((listen {X = X}
            (a ∷ addr)
            (close {X = X} none (a ∷ addr) (listen {X = X} (a ∷ addr) t).1).1).0
          ≡ ok n)
      × (n ≢ l)
meet {X} addr other a b t s differ =
    let A = a ∷ addr in
    let B = b ∷ other in
    let l = (listener_for A t).0 in
    let t1 = (listener_for A t).1 in
    let first = left A t s in
    let second = left B t1 first.sound in
    let gone : BufConn = record t1 { listeners = remove A t1.listeners; closed = l ∷ t1.closed } in
    let away : lookup A gone.listeners ≡ none =
      lookup-remove A A t1.listeners ∙ (rw (==-refl A) refl) in
    let closes : close {X = X} none A t1 ≡ (none, gone) =
      unfold close in
      ap
        (λ o. elim o as (λ x. Option X × BufConn) [
          | some k ↦ (none, record t1 { listeners = remove A t1.listeners; closed = k ∷ t1.closed })
          | none ↦ (none, t1)
        ])
        first.here in
    let again : (listener_for A t1).0 ≡ l = ap (λ p. p.0) (found A t1 l first.here) in
    (
      l,
      (listener_for B t1).0,
      t1.created,
      unfold listen in refl,
      unfold listen dial in ap ok again,
      unfold dial in refl,
      unfold new_http_client tranport dial in ap ok again,
      unfold listen in refl,
      (λ e.
          differ
            (second.sound.apart A B l (second.keeps A l first.here) (second.here ∙ ap some e))),
      unfold listen in
          (ap (λ (p : Option X × BufConn). (listen {X = X} A p.1).0) closes
            ∙ ap (λ (p : ℕ × BufConn). ok p.0) (created_new A gone away)),
      (λ e. absurd (ground (arith, e, first.sound.below A l first.here))),
    )
