-- ===== src/Server/Broadcast/Queues.antt =====
-- pkg/server/server.go: the queue of a subscribed connection is bounded and in order.
use axctl.Common.{
  ℕ, ◌≤◌, ◌+◌, ◌==◌, ◌≡◌, refl, ap, ◌∙◌, sym, String, false, Option, some, List, [], ◌∷◌, ◌++◌,
  length, length-append, if◌then◌else◌, lookup, number_key, lookup-insert_self, arith, Bool-cases,
  inl, inr, ltb,
}
use mathlib.Core.List.{append_assoc, append-nil}
use axctl.Server.Broadcast.{
  Server, Params, Notification, notification, encodes, offer, offer_each, event_client_queue_size,
  broadcast_event, write_next, written_queue,
}

-- The first list is the second one less some entries.
pub data IsSublist {ℓ} {A : Type ℓ} : List A → List A → Type ℓ where
  done : IsSublist [] []
  keep : {x : A} {xs ys : List A} → IsSublist xs ys → IsSublist (x ∷ xs) (x ∷ ys)
  skip : {x : A} {xs ys : List A} → IsSublist xs ys → IsSublist xs (x ∷ ys)

module _ {ℓ} {A : Type ℓ} where
  IsSublist-refl : (xs : List A) → IsSublist xs xs
  IsSublist-refl [] = done
  IsSublist-refl (x ∷ xs) = keep (IsSublist-refl xs)

  IsSublist-keep_last :
      {xs ys : List A} (x : A) → IsSublist xs ys → IsSublist (xs ++ (x ∷ [])) (ys ++ (x ∷ []))
  IsSublist-keep_last x done = keep done
  IsSublist-keep_last x (keep h) = keep (IsSublist-keep_last x h)
  IsSublist-keep_last x (skip h) = skip (IsSublist-keep_last x h)

  IsSublist-skip_last : {xs ys : List A} (x : A) → IsSublist xs ys → IsSublist xs (ys ++ (x ∷ []))
  IsSublist-skip_last x done = skip done
  IsSublist-skip_last x (keep h) = keep (IsSublist-skip_last x h)
  IsSublist-skip_last x (skip h) = skip (IsSublist-skip_last x h)

lookup-offer_each :
    (conn : ℕ) (n : Notification) (cs : List (ℕ × List Notification)) {q : List Notification}
    → lookup conn cs ≡ some q
    → lookup conn (offer_each n cs) ≡ some (offer n q)
unfolding lookup offer_each
lookup-offer_each conn n [] {q} h = cc
lookup-offer_each conn n ((c, p) ∷ cs) {q} h = ground (arith, lookup-offer_each conn n cs {q = q})

lookup-nonempty :
    (conn : ℕ) (cs : List (ℕ × List Notification)) {q : List Notification}
    → lookup conn cs ≡ some q
    → (length cs == 0) ≡ false
unfolding lookup
lookup-nonempty conn [] h = cc
lookup-nonempty conn (c ∷ cs) h = ground arith

-- What a broadcast offers to each queue: one notification, or nothing if it cannot be encoded.
unfoldable pub told : Server → String → Params → List Notification
told s method params = let n = notification s method params in if encodes n then n ∷ [] else []

pub broadcast_event-clients :
    (s : Server) (method : String) (params : Params) (conn : ℕ) {q : List Notification}
    → lookup conn s.clients ≡ some q
    → lookup conn (broadcast_event s method params).clients
      ≡ some (
          if encodes (notification s method params)
          then offer (notification s method params) q
          else q)
unfolding broadcast_event
broadcast_event-clients s method params conn {q} h =
    let n = notification s method params in
    elim (Bool-cases (encodes n)) [
      | inl e ↦
          rw (lookup-nonempty conn s.clients {q = q} h, e) (lookup-offer_each conn n s.clients h)
      | inr e ↦ rw (lookup-nonempty conn s.clients {q = q} h, e) h
    ]

-- The run of a server from one state to another, seen from one connection: the notifications that
-- were broadcast, and those that were written to the connection.
pub data History (conn : ℕ) (s : Server)
    : Server → List Notification → List Notification → Type 0 where
  start : History conn s s [] []
  broadcasts :
      {t : Server} {sent written : List Notification} (method : String) (params : Params)
      → History conn s t sent written
      → History conn s (broadcast_event t method params) (sent ++ told t method params) written
  writes :
      {t : Server} {sent written : List Notification} (n : Notification)
      → History conn s t sent written
      → (write_next t conn).1 ≡ some n
      → History conn s (write_next t conn).0 sent (written ++ (n ∷ []))
  -- Whatever leaves the queue of the connection alone: other writers, subscriptions and events.
  elsewhere :
      {t : Server} {sent written : List Notification} (u : Server)
      → History conn s t sent written
      → lookup conn u.clients ≡ lookup conn t.clients
      → History conn s u sent written

record IsOrdered (sent written q : List Notification) : Type 0 where
  in_order : IsSublist (written ++ q) sent
  bounded : length q ≤ event_client_queue_size
  complete : length sent ≤ event_client_queue_size → written ++ q ≡ sent

-- A full queue means that more was broadcast than the queue holds.
full :
    {sent written q : List Notification} (n : Notification)
    → ltb (length q) event_client_queue_size ≡ false
    → length (sent ++ (n ∷ [])) ≤ event_client_queue_size
    → IsOrdered sent written q
    → ⊥
full {sent} {written} {q} n e h o =
    let short : length sent ≤ event_client_queue_size =
      omega (arith, length-append sent (n ∷ []), h) in
    let same : length written + length q ≡ length sent =
      sym (length-append written q) ∙ ap length (o.complete short) in
    ground (arith, length-append sent (n ∷ []), same, e, h)

offered :
    {sent written q : List Notification} (n : Notification)
    → IsOrdered sent written q
    → IsOrdered (sent ++ (n ∷ [])) written (offer n q)
unfolding offer
offered {sent} {written} {q} n o = elim (Bool-cases (ltb (length q) event_client_queue_size)) [
  | inl e ↦ rw e (record {
    in_order = rw (sym (append_assoc written q (n ∷ []))) (IsSublist-keep_last n o.in_order);
    bounded = ground (arith, length-append q (n ∷ []), o.bounded, e);
    complete = λ h.
        sym (append_assoc written q (n ∷ []))
        ∙ ap (λ (xs : List Notification). xs ++ (n ∷ []))
            (o.complete (omega (arith, length-append sent (n ∷ []), h)));
  })
  | inr e ↦ rw e (record {
    in_order = IsSublist-skip_last n o.in_order;
    bounded = o.bounded;
    complete = λ h. absurd (full n e h o);
  })
]

told_keeps :
    (s : Server) (method : String) (params : Params) {sent written q : List Notification}
    → IsOrdered sent written q
    → IsOrdered (sent ++ told s method params) written (
        if encodes (notification s method params)
        then offer (notification s method params) q
        else q)
unfolding told
told_keeps s method params {sent} {written} {q} o =
    let n = notification s method params in
    elim (Bool-cases (encodes n)) [ inl e ↦ rw e (offered n o) | inr e ↦ rw (e, append-nil sent) o ]

write_next-clients :
    (t : Server) (conn : ℕ) {q : List Notification} (n : Notification)
    → lookup conn t.clients ≡ some q
    → (write_next t conn).1 ≡ some n
    → (q' : List Notification) × (q ≡ n ∷ q')
      × (lookup conn (write_next t conn).0.clients ≡ some q')
unfolding write_next written_queue
write_next-clients t conn {q = []} n h e = absurd (let r = ap (written_queue t conn) h in cc e)
write_next-clients t conn {q = m ∷ q} n h e =
    let r = ap (written_queue t conn) h in
    (
      q,
      cc e,
      ap (λ (p : Server × Option Notification). lookup conn p.0.clients) r
          ∙ lookup-insert_self conn q t.clients,
    )

written_keeps :
    {sent written q q' : List Notification} (n : Notification)
    → q ≡ n ∷ q'
    → IsOrdered sent written q
    → IsOrdered sent (written ++ (n ∷ [])) q'
written_keeps {sent} {written} {q} {q'} n e o =
    let all : (written ++ (n ∷ [])) ++ q' ≡ written ++ q =
      append_assoc written (n ∷ []) q' ∙ ap (λ (xs : List Notification). written ++ xs) (sym e) in
    record {
      in_order = rw all o.in_order;
      bounded = omega (arith, ap length e, o.bounded);
      complete = λ h. all ∙ o.complete h;
    }

History-IsOrdered :
    {conn : ℕ} {s t : Server} {sent written : List Notification}
    → lookup conn s.clients ≡ some []
    → History conn s t sent written
    → (q : List Notification) × (lookup conn t.clients ≡ some q) × IsOrdered sent written q
History-IsOrdered fresh start =
    ([], fresh, record { in_order = done; bounded = omega arith; complete = λ h. refl })
History-IsOrdered {conn} fresh (broadcasts {t} method params r) =
    let (q, e, o) = History-IsOrdered fresh r in
    (_, broadcast_event-clients t method params conn e, told_keeps t method params o)
History-IsOrdered {conn} fresh (writes {t} n r e) =
    let (q, at, o) = History-IsOrdered fresh r in
    let (q', took, left) = write_next-clients t conn n at e in (q', left, written_keeps n took o)
History-IsOrdered fresh (elsewhere u r same) =
    let (q, e, o) = History-IsOrdered fresh r in (q, same ∙ e, o)

-- From an empty queue on, in any interleaving of broadcasts, writes and steps that leave the queue of
-- a connection alone, what was written to the connection followed by what waits in its queue are
-- notifications that were broadcast, in the order of the broadcasts, and at most 256 wait.
pub delivered_in_order :
    {conn : ℕ} {s t : Server} {sent written : List Notification}
    → lookup conn s.clients ≡ some []
    → History conn s t sent written
    → (q : List Notification) × (lookup conn t.clients ≡ some q)
      × IsSublist (written ++ q) sent
      × (length q ≤ event_client_queue_size)
delivered_in_order fresh r =
    let (q, e, o) = History-IsOrdered fresh r in (q, e, o.in_order, o.bounded)

-- In such an interleaving, while no more than 256 notifications were broadcast since its queue was
-- empty, a connection has missed none: those written and those in its queue are all of them.
pub delivered_all :
    {conn : ℕ} {s t : Server} {sent written : List Notification}
    → lookup conn s.clients ≡ some []
    → History conn s t sent written
    → length sent ≤ event_client_queue_size
    → (q : List Notification) × (lookup conn t.clients ≡ some q) × (written ++ q ≡ sent)
delivered_all fresh r few = let (q, e, o) = History-IsOrdered fresh r in (q, e, o.complete few)

-- A broadcast leaves the cache alone.
pub broadcast_event-cache :
    (s : Server) (method : String) (params : Params)
    → (broadcast_event s method params).cache ≡ s.cache
unfolding broadcast_event
broadcast_event-cache s method params = elim (Bool-cases (length s.clients == 0)) [
  | inl e ↦ rw e
  | inr e ↦ elim (Bool-cases (encodes (notification s method params))) [
    | inl h ↦ rw (e, h)
    | inr h ↦ rw (e, h)
  ]
]
