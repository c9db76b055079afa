-- ===== src/Outbox/Pending.antt =====
-- What `GetPendingEvents` (internal/outbox/repository.go) hands to the worker.
use mathlib.Core.Path.{subst}
use mathlib.Core.List.{Perm}
use mathlib.Core.List.Perm
use baxi.Base.{
  ℕ, zero, suc, ◌≤◌, ◌≡◌, ◌⊎◌, Bool, true, false, Option, none, some, List, [], ◌∷◌, ◌++◌, inl, inr,
  ℤ, ◌≤ℤ◌, leb_ℤ, ok, Driver, arith, Bool-cases, Option-cases, filter, take, length, length-take_le,
  All, All-take, All-drop, All-map, All-filter, drop, take-append-drop, take_full, String, eq_iff,
}
use baxi.Outbox.{
  OutboxEvent, Table, Stmt, is_ready, insert_by_age, order_by_age, events, get_pending_events,
}

-- Oldest first: each event is no younger than any behind it.
abbrev pub NoYounger : OutboxEvent → OutboxEvent → Type 0
NoYounger e d = e.created_at ≤ℤ d.created_at

abbrev pub IsOrdered : List OutboxEvent → Type 0
IsOrdered [] = Unit
IsOrdered (e ∷ es) = All (NoYounger e) es × IsOrdered es

All-le :
    (e d : OutboxEvent) (es : List OutboxEvent)
    → NoYounger e d
    → All (NoYounger d) es
    → All (NoYounger e) es
All-le e d [] h k = tt
All-le e d (c ∷ es) h k = (omega (arith, k.0), All-le e d es h k.1)

All-insert_by_age {ℓ} :
    (P : OutboxEvent → Type ℓ) (e : OutboxEvent) (es : List OutboxEvent)
    → P e
    → All P es
    → All P (insert_by_age e es)
unfolding insert_by_age
All-insert_by_age P e [] p h = (p, tt)
All-insert_by_age P e (d ∷ ds) p h = elim (Bool-cases (leb_ℤ e.created_at d.created_at)) [
  | inl first ↦ rw (first, insert_by_age) (p, h)
  | inr later ↦ rw (later, insert_by_age) (h.0, All-insert_by_age P e ds p h.1)
]

insert_by_age-IsOrdered :
    (e : OutboxEvent) (es : List OutboxEvent) → IsOrdered es → IsOrdered (insert_by_age e es)
unfolding insert_by_age
insert_by_age-IsOrdered e [] h = (tt, tt)
insert_by_age-IsOrdered e (d ∷ ds) h = elim (Bool-cases (leb_ℤ e.created_at d.created_at)) [
  | inl first ↦
      let le : NoYounger e d = ground arith in
      rw (first, insert_by_age) ((le, All-le e d ds le h.0), h)
  | inr later ↦
      let le : NoYounger d e = ground arith in
      rw (later, insert_by_age)
        (All-insert_by_age (NoYounger d) e ds le h.0, insert_by_age-IsOrdered e ds h.1)
]

insert_by_age-perm : (e : OutboxEvent) (es : List OutboxEvent) → Perm (insert_by_age e es) (e ∷ es)
unfolding insert_by_age
insert_by_age-perm e [] = Perm.refl (e ∷ [])
insert_by_age-perm e (d ∷ ds) = elim (Bool-cases (leb_ℤ e.created_at d.created_at)) [
  | inl first ↦ rw (first, insert_by_age) (Perm.refl _)
  | inr later ↦
      rw (later, insert_by_age)
        (Perm.trans (Perm.cons d (insert_by_age-perm e ds)) (Perm.swap e d ds))
]

order_by_age-IsOrdered : (es : List OutboxEvent) → IsOrdered (order_by_age es)
unfolding order_by_age
order_by_age-IsOrdered [] = tt
order_by_age-IsOrdered (e ∷ es) =
    insert_by_age-IsOrdered e (order_by_age es) (order_by_age-IsOrdered es)

order_by_age-perm : (es : List OutboxEvent) → Perm (order_by_age es) es
unfolding order_by_age
order_by_age-perm [] = Perm.refl []
order_by_age-perm (e ∷ es) =
    Perm.trans (insert_by_age-perm e (order_by_age es)) (Perm.cons e (order_by_age-perm es))

All-order_by_age {ℓ} :
    (P : OutboxEvent → Type ℓ) (es : List OutboxEvent) → All P es → All P (order_by_age es)
unfolding order_by_age
All-order_by_age P [] h = tt
All-order_by_age P (e ∷ es) h =
    All-insert_by_age P e (order_by_age es) h.0 (All-order_by_age P es h.1)

IsOrdered-take : (n : ℕ) (es : List OutboxEvent) → IsOrdered es → IsOrdered (take n es)
IsOrdered-take zero es h = tt
IsOrdered-take (suc n) [] h = tt
IsOrdered-take (suc n) (e ∷ es) h = (All-take (NoYounger e) n es h.0, IsOrdered-take n es h.1)

-- What is taken is no younger than what is left.
take-NoYounger :
    (n : ℕ) (es : List OutboxEvent)
    → IsOrdered es
    → All (λ e. All (NoYounger e) (drop n es)) (take n es)
take-NoYounger zero es h = tt
take-NoYounger (suc n) [] h = tt
take-NoYounger (suc n) (e ∷ es) h = (All-drop (NoYounger e) n es h.0, take-NoYounger n es h.1)

abbrev pub IsDue : ℤ → Option ℤ → Type 0
IsDue now none = Unit
IsDue now (some at) = at ≤ℤ now

-- What the WHERE clause and SKIP LOCKED ask of an event.
abbrev pub IsReady : ℤ → (String → Bool) → OutboxEvent → Type 0
IsReady now locked e =
    ((e.status ≡ "pending") ⊎ (e.status ≡ "failed"))
    × IsDue now e.next_retry_at
    × (locked e.event_id ≡ false)

IsReady-of_test :
    (now : ℤ) (locked : String → Bool) (e : OutboxEvent)
    → is_ready now locked e ≡ true
    → IsReady now locked e
IsReady-of_test now locked e h = elim (Option-cases e.next_retry_at) [
  | inl never ↦ ground (arith, eq_iff e.status "pending", eq_iff e.status "failed")
  | inr (at, set) ↦ ground (arith, eq_iff e.status "pending", eq_iff e.status "failed")
]

-- A fetch that succeeds returns ready events only (pending or failed, the retry time reached, not
-- locked by another session), the oldest first and at most `limit` of them. Together with those
-- passed over they are all the ready events of the table; none passed over is older than one
-- returned, and some are passed over only where the limit is reached.
pub get_pending_events-oldest :
    (drv : Driver Stmt) (now : ℤ) (locked : String → Bool) (limit : ℕ) (t : Table)
    (es : List OutboxEvent)
    → get_pending_events drv now locked limit t ≡ ok es
    → (rest : List OutboxEvent) × Perm (es ++ rest) (filter (is_ready now locked) (events t))
      × All (IsReady now locked) es
      × IsOrdered es
      × All (λ e. All (NoYounger e) rest) es
      × (length es ≤ limit)
      × ((rest ≡ []) ⊎ (length es ≡ limit))
unfolding get_pending_events
get_pending_events-oldest drv now locked limit t es h = subst Fetched same fetched
  where
    found : List OutboxEvent
    found = filter (is_ready now locked) (events t)

    sorted : List OutboxEvent
    sorted = order_by_age found

    Fetched : List OutboxEvent → Type 0
    Fetched xs =
        (rest : List OutboxEvent) × Perm (xs ++ rest) found
        × All (IsReady now locked) xs
        × IsOrdered xs
        × All (λ e. All (NoYounger e) rest) xs
        × (length xs ≤ limit)
        × ((rest ≡ []) ⊎ (length xs ≡ limit))

    same : take limit sorted ≡ es
    same = ground arith

    fetched : Fetched (take limit sorted)
    fetched = (
      drop limit sorted,
      rw (take-append-drop limit sorted) (order_by_age-perm found),
      All-take (IsReady now locked) limit sorted (
          All-order_by_age (IsReady now locked) found
            (All-map _ _ (IsReady-of_test now locked) found (All-filter _ (events t)))),
      IsOrdered-take limit sorted (order_by_age-IsOrdered found),
      take-NoYounger limit sorted (order_by_age-IsOrdered found),
      length-take_le limit sorted,
      take_full limit sorted,
    )

-- What holds of every ready event holds of those that a fetch returns.
pub get_pending_events-All {ℓ} :
    (P : OutboxEvent → Type ℓ) (drv : Driver Stmt) (now : ℤ) (locked : String → Bool) (limit : ℕ)
    (t : Table) (es : List OutboxEvent)
    → get_pending_events drv now locked limit t ≡ ok es
    → All P (filter (is_ready now locked) (events t))
    → All P es
unfolding get_pending_events
get_pending_events-All P drv now locked limit t es h all = subst (All P) same taken
  where
    sorted : List OutboxEvent
    sorted = order_by_age (filter (is_ready now locked) (events t))

    same : take limit sorted ≡ es
    same = ground arith

    taken : All P (take limit sorted)
    taken = All-take P limit sorted (All-order_by_age P _ all)
