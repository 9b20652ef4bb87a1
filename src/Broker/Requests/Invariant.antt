-- ===== src/Broker/Requests/Invariant.antt =====
-- What holds of the table of requests after any interleaving.
use mathlib.Core.Option.{some-injective}
use sbd_drones_economics.Base.{
  String, Bool, true, false, not, ◌&&◌, if◌then◌else◌, Option, none, some, List, [], ◌∷◌, lookup,
  insert, ◌==◌, ◌≡◌, refl, sym, subst, ◌⊎◌, inl, inr, arith, eq_iff, Bool-cases, Option-cases,
  lookup-insert_self, lookup-insert_ne, lookup-erase_other, lookup-erase_self, IsKeyed,
  insert-IsKeyed, erase-IsKeyed,
}
use sbd_drones_economics.Broker.Requests.{
  Message, Future, Phase, publishing, waiting, timing_out, raised, returned, Published, sent,
  refused, raises, Table, empty, register, published, sought, settle, resolve, wake, time_out,
  give_up, Event, registers, wakes, times_out, gives_up, publishes, receives, is_new, is_publishing,
  is_waiting, is_timing_out, step, run,
}

-- A message that bears the id.
unfoldable pub Answers : String → Message → Type 0
Answers id m = m.correlation_id ≡ some id

-- The request is pending, or its future holds a message that bears its id.
unfoldable pub Awaits : String → Option Future → Option Message → Type 0
unfolding Answers
Awaits id p r =
    ((p ≡ some id) × (r ≡ none)) ⊎ ((p ≡ none) × ((m : Message) × ((r ≡ some m) × Answers id m)))

unfoldable pub Answered : String → Option Message → Type 0
unfolding Answers
Answered id r = (r ≡ none) ⊎ ((m : Message) × ((r ≡ some m) × Answers id m))

-- What an id has in the table, by the phase of its call.
unfoldable pub Row : String → Option Future → Option Message → Option Phase → Type 0
unfolding Awaits Answered Answers
Row id p r none = (p ≡ none) × (r ≡ none)
Row id p r (some publishing) = Awaits id p r
Row id p r (some waiting) = Awaits id p r
Row id p r (some timing_out) = Awaits id p r
Row id p r (some raised) = Awaits id p r
Row id p r (some (returned none)) = (p ≡ none) × Answered id r
Row id p r (some (returned (some m))) = (p ≡ none) × ((r ≡ some m) × Answers id m)

unfoldable pub RowOf : Table → String → Type 0
unfolding Row
RowOf t id = Row id (lookup id t.pending) (lookup id t.results) (lookup id t.calls)

pub record IsSound (t : Table) : Type 0 where
  pub keyed : IsKeyed t.pending
  pub rows : (id : String) → RowOf t id

-- Two tables that differ at one id at most.
abbrev SameElse : String → Table → Table → Type 0
SameElse id t u =
    (i : String)
    → (id == i) ≡ false
    → (lookup i u.pending ≡ lookup i t.pending)
      × ((lookup i u.results ≡ lookup i t.results) × (lookup i u.calls ≡ lookup i t.calls))

rows_else :
    (id : String) (t u : Table)
    → SameElse id t u
    → RowOf u id
    → ((i : String) → RowOf t i)
    → (i : String) → RowOf u i
unfolding RowOf
rows_else id t u same at_id rows i = elim (Bool-cases (id == i)) [
  | inl e ↦ subst (RowOf u) (ground (arith, eq_iff id i)) at_id
  | inr ne ↦ let d = same i ne in rw (d.0, d.1.0, d.1.1) (rows i)
]

-- What is pending at an id is the id's own future, and nothing has answered it.
pending-own :
    (id : String) (f : Future) (r : Option Message) (c : Option Phase)
    → Row id (some f) r c
    → (f ≡ id) × Awaits id (some f) r
unfolding Row Awaits
pending-own id f r none h = ground arith
pending-own id f r (some publishing) h = (ground arith, h)
pending-own id f r (some waiting) h = (ground arith, h)
pending-own id f r (some timing_out) h = (ground arith, h)
pending-own id f r (some raised) h = (ground arith, h)
pending-own id f r (some (returned none)) h = ground arith
pending-own id f r (some (returned (some m))) h = ground arith

settled-Row :
    (id : String) (f : Future) (r : Option Message) (c : Option Phase) (m : Message)
    → Row id (some f) r c
    → Answers id m
    → Row id none (some m) c
unfolding Row Awaits
settled-Row id f r none m h a = ground arith
settled-Row id f r (some publishing) m h a = inr (refl, (m, (refl, a)))
settled-Row id f r (some waiting) m h a = inr (refl, (m, (refl, a)))
settled-Row id f r (some timing_out) m h a = inr (refl, (m, (refl, a)))
settled-Row id f r (some raised) m h a = inr (refl, (m, (refl, a)))
settled-Row id f r (some (returned none)) m h a = ground arith
settled-Row id f r (some (returned (some _))) m h a = ground arith

sought-Answers : (m : Message) (id : String) → sought m ≡ some id → Answers id m
unfolding sought Answers
sought-Answers m id e = ground arith

-- Only the phase of one call changes.
calls-IsSound :
    (id : String) (c : Phase) (t : Table)
    → Row id (lookup id t.pending) (lookup id t.results) (some c)
    → IsSound t
    → IsSound (record t { calls = insert id c t.calls })
unfolding RowOf
calls-IsSound id c t row h = record {
  keyed = h.keyed;
  rows =
      rows_else id t (record t { calls = insert id c t.calls })
        (λ i ne. (refl, (refl, lookup-insert_ne id i c t.calls ne)))
        (rw (lookup-insert_self id c t.calls) row) h.rows;
}

register-IsSound :
    (id : String) (t : Table) → lookup id t.calls ≡ none → IsSound t → IsSound (register id t)
unfolding register RowOf Row Awaits
register-IsSound id t fresh h = record {
  keyed = insert-IsKeyed id id t.pending h.keyed;
  rows =
      rows_else id t (register id t)
        (λ i ne. (
          lookup-insert_ne id i id t.pending ne,
          (refl, lookup-insert_ne id i publishing t.calls ne),
        ))
        (rw (lookup-insert_self id publishing t.calls)
          (inl (lookup-insert_self id id t.pending, (rw fresh at (h.rows id)).1)))
        h.rows;
}

-- The call leaves its pending entry and returns None.
give_up-IsSound :
    (id : String) (t : Table)
    → Awaits id (lookup id t.pending) (lookup id t.results)
    → IsSound t
    → IsSound (give_up id t)
unfolding give_up RowOf Row Answered Awaits
give_up-IsSound id t a h = record {
  keyed = erase-IsKeyed id t.pending h.keyed;
  rows =
      rows_else id t (give_up id t)
        (λ i ne. (
          lookup-erase_other id i t.pending ne,
          (refl, lookup-insert_ne id i (returned none) t.calls ne),
        ))
        (rw (lookup-insert_self id (returned none) t.calls)
          (lookup-erase_self id t.pending h.keyed, answered a))
        h.rows;
}
  where
    answered :
        Awaits id (lookup id t.pending) (lookup id t.results) → Answered id (lookup id t.results)
    answered (inl (_, e)) = inl e
    answered (inr (_, e)) = inr e

settle-IsSound :
    (id f : String) (m : Message) (t : Table)
    → lookup id t.pending ≡ some f
    → Answers id m
    → IsSound t
    → IsSound (settle id f m t)
unfolding settle RowOf
settle-IsSound id f m t e a h = record {
  keyed = erase-IsKeyed id t.pending h.keyed;
  rows =
      rows_else id t (settle id f m t)
        (λ i ne. (
          lookup-erase_other id i t.pending ne,
          (rw own (lookup-insert_ne id i m t.results ne), refl),
        ))
        (rw (own, lookup-erase_self id t.pending h.keyed, lookup-insert_self id m t.results)
          (settled-Row id f (lookup id t.results) (lookup id t.calls) m row a))
        h.rows;
}
  where
    row : Row id (some f) (lookup id t.results) (lookup id t.calls)
    row = rw e at (h.rows id)

    own : f ≡ id
    own = (pending-own id f (lookup id t.results) (lookup id t.calls) row).0

pub new-none : (c : Option Phase) → is_new c ≡ true → c ≡ none
unfolding is_new
new-none none e = refl
new-none (some c) e = ground arith

pub publishing-some : (c : Option Phase) → is_publishing c ≡ true → c ≡ some publishing
unfolding is_publishing
publishing-some none e = ground arith
publishing-some (some publishing) e = refl
publishing-some (some waiting) e = ground arith
publishing-some (some timing_out) e = ground arith
publishing-some (some raised) e = ground arith
publishing-some (some (returned _)) e = ground arith

pub waiting-some : (c : Option Phase) → is_waiting c ≡ true → c ≡ some waiting
unfolding is_waiting
waiting-some none e = ground arith
waiting-some (some publishing) e = ground arith
waiting-some (some waiting) e = refl
waiting-some (some timing_out) e = ground arith
waiting-some (some raised) e = ground arith
waiting-some (some (returned _)) e = ground arith

pub timing_out-some : (c : Option Phase) → is_timing_out c ≡ true → c ≡ some timing_out
unfolding is_timing_out
timing_out-some none e = ground arith
timing_out-some (some publishing) e = ground arith
timing_out-some (some waiting) e = ground arith
timing_out-some (some timing_out) e = refl
timing_out-some (some raised) e = ground arith
timing_out-some (some (returned _)) e = ground arith

-- The row of a call that stands in a phase.
pub phase_in :
    (id : String) (t : Table) (c : Phase)
    → lookup id t.calls ≡ some c
    → IsSound t
    → Row id (lookup id t.pending) (lookup id t.results) (some c)
unfolding RowOf
phase_in id t c e h = rw e at (h.rows id)

published-IsSound :
    (id : String) (p : Published) (t : Table)
    → Awaits id (lookup id t.pending) (lookup id t.results)
    → IsSound t
    → IsSound (published id p t)
unfolding published Row give_up
published-IsSound id sent t a h = calls-IsSound id waiting t a h
published-IsSound id refused t a h = give_up-IsSound id t a h
published-IsSound id raises t a h = calls-IsSound id raised t a h

wake-IsSound :
    (id : String) (r : Option Message) (t : Table)
    → Awaits id (lookup id t.pending) r
    → lookup id t.results ≡ r
    → IsSound t
    → IsSound (wake id r t)
unfolding wake Row Awaits
wake-IsSound id none t a e h = h
wake-IsSound id (some m) t (inl (_, bad)) e h = ground arith
wake-IsSound id (some m) t (inr (p, (n, (same, b)))) e h =
    calls-IsSound id (returned (some m)) t
      (p, (e, subst (Answers id) (some-injective _ _ (sym same)) b)) h

time_out-IsSound :
    (id : String) (r : Option Message) (t : Table)
    → Awaits id (lookup id t.pending) (lookup id t.results)
    → IsSound t
    → IsSound (time_out id r t)
unfolding time_out Row
time_out-IsSound id none t a h = calls-IsSound id timing_out t a h
time_out-IsSound id (some m) t a h = h

pub resolve-cases :
    (m : Message) (t : Table)
    → (resolve m t ≡ none)
      ⊎ ((id : String) × ((f : Future) × ((sought m ≡ some id)
              × ((lookup id t.pending ≡ some f) × (resolve m t ≡ some (settle id f m t))))))
unfolding resolve
resolve-cases m t = elim (Option-cases (sought m)) [
  | inl e ↦ inl (ground arith)
  | inr (id, e) ↦ elim (Option-cases (lookup id t.pending)) [
    | inl p ↦ inl (ground arith)
    | inr (f, p) ↦ inr (id, (f, (e, (p, ground arith))))
  ]
]

resolve-IsSound : (m : Message) (t u : Table) → resolve m t ≡ some u → IsSound t → IsSound u
resolve-IsSound m t u e h = elim (resolve-cases m t) [
  | inl n ↦ ground arith
  | inr (id, (f, (s, (p, r)))) ↦
      subst IsSound (ground arith) (settle-IsSound id f m t p (sought-Answers m id s) h)
]

pub if-keeps :
    (P : Table → Type 0) (b : Bool) (t u : Table) → P t → (b ≡ true → P u) → P (if b then u else t)
if-keeps P true t u old new = new refl
if-keeps P false t u old new = old

pub step-IsSound : (e : Event) (t : Table) → IsSound t → IsSound (step e t)
unfolding step Row
step-IsSound (registers id) t h =
    if-keeps IsSound (not (id == "") && is_new (lookup id t.calls)) t _ h
      λ b. register-IsSound id t (new-none _ (ground arith)) h
step-IsSound (publishes id p) t h =
    if-keeps IsSound (is_publishing (lookup id t.calls)) t _ h
      λ b. published-IsSound id p t (phase_in id t publishing (publishing-some _ b) h) h
step-IsSound (wakes id) t h =
    if-keeps IsSound (is_waiting (lookup id t.calls)) t _ h λ b.
      wake-IsSound id (lookup id t.results) t (phase_in id t waiting (waiting-some _ b) h) refl h
step-IsSound (times_out id) t h =
    if-keeps IsSound (is_waiting (lookup id t.calls)) t _ h λ b.
      time_out-IsSound id (lookup id t.results) t (phase_in id t waiting (waiting-some _ b) h) h
step-IsSound (gives_up id) t h =
    if-keeps IsSound (is_timing_out (lookup id t.calls)) t _ h
      λ b. give_up-IsSound id t (phase_in id t timing_out (timing_out-some _ b) h) h
step-IsSound (receives m) t h = elim (Option-cases (resolve m t)) [
  | inl e ↦ rw (e, step) h
  | inr (u, e) ↦ rw (e, step) (resolve-IsSound m t u e h)
]

pub empty-IsSound : IsSound empty
unfolding RowOf Row
empty-IsSound = record { keyed = tt; rows = λ id. (refl, refl) }

pub run-IsSound : (es : List Event) (t : Table) → IsSound t → IsSound (run es t)
unfolding run
run-IsSound [] t h = h
run-IsSound (e ∷ es) t h = run-IsSound es (step e t) (step-IsSound e t h)
