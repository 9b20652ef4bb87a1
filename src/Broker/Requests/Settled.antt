-- ===== src/Broker/Requests/Settled.antt =====
-- What a caller of `request` is promised, and how a request ends.
use mathlib.Core.Option.{some-injective}
use sbd_drones_economics.Base.{
  String, not, ◌&&◌, Option, none, some, List, lookup, insert, ◌==◌, ◌≡◌, refl, sym, subst, inl,
  inr, arith, eq_iff, Bool-cases, lookup-insert_self, lookup-insert_ne,
}
use sbd_drones_economics.Broker.Requests.{
  Message, Phase, publishing, waiting, timing_out, raised, returned, Published, sent, refused,
  raises, Table, empty, register, published, settle, wake, time_out, give_up, Event, registers,
  wakes, times_out, gives_up, publishes, receives, is_new, is_publishing, is_waiting, is_timing_out,
  step, run,
}
use sbd_drones_economics.Broker.Requests.Invariant.{
  Answers, Awaits, Row, IsSound, phase_in, resolve-cases, if-keeps, new-none, empty-IsSound,
  publishing-some, waiting-some, timing_out-some, run-IsSound,
}

-- A request as its caller sees it.
pub data Status : Type 0 where
  unknown open_ failed : Status
  closed : Option Message → Status

unfoldable pub status : Option Phase → Status
status none = unknown
status (some publishing) = open_
status (some waiting) = open_
status (some timing_out) = open_
status (some raised) = failed
status (some (returned r)) = closed r

-- What may become of a request: it is opened once, and ends once, by an exception, without an
-- answer, or with a message that bears its id.
pub data Moves (id : String) : Status → Status → Type 0 where
  stays : (s : Status) → Moves id s s
  opens : Moves id unknown open_
  fails : Moves id open_ failed
  times_out_with_none : Moves id open_ (closed none)
  answers : (m : Message) → Answers id m → Moves id open_ (closed (some m))

abbrev MovesAt : String → Option Phase → Option Phase → Type 0
MovesAt id c d = Moves id (status c) (status d)

unfoldable pub MovesTo : Table → Table → Type 0
MovesTo t u = (id : String) → MovesAt id (lookup id t.calls) (lookup id u.calls)

same-MovesTo : (t : Table) → MovesTo t t
unfolding MovesTo
same-MovesTo t id = stays _

insert-MovesTo :
    (id : String) (c : Phase) (t u : Table)
    → u.calls ≡ insert id c t.calls
    → MovesAt id (lookup id t.calls) (some c)
    → MovesTo t u
unfolding MovesTo
insert-MovesTo id c t u e move i = elim (Bool-cases (id == i)) [
  | inl same ↦
      subst (λ j. MovesAt j (lookup j t.calls) (lookup j u.calls)) {x = id}
        (ground (arith, eq_iff id i)) (rw (e, lookup-insert_self id c t.calls) move)
  | inr ne ↦ rw (e, lookup-insert_ne id i c t.calls ne) (stays _)
]

published-MovesTo :
    (id : String) (p : Published) (t : Table)
    → lookup id t.calls ≡ some publishing
    → MovesTo t (published id p t)
unfolding published status
published-MovesTo id sent t e = insert-MovesTo id waiting t _ refl (rw e (stays open_))
published-MovesTo id refused t e =
    insert-MovesTo id (returned none) t _ refl (rw e times_out_with_none)
published-MovesTo id raises t e = insert-MovesTo id raised t _ refl (rw e fails)

wake-MovesTo :
    (id : String) (r : Option Message) (t : Table)
    → lookup id t.calls ≡ some waiting
    → Awaits id (lookup id t.pending) r
    → MovesTo t (wake id r t)
unfolding wake status Awaits
wake-MovesTo id none t e a = same-MovesTo t
wake-MovesTo id (some m) t e (inl (_, bad)) = ground arith
wake-MovesTo id (some m) t e (inr (_, (n, (same, a)))) =
    insert-MovesTo id (returned (some m)) t _ refl
      (rw e (answers m (subst (Answers id) (some-injective _ _ (sym same)) a)))

time_out-MovesTo :
    (id : String) (r : Option Message) (t : Table)
    → lookup id t.calls ≡ some waiting
    → MovesTo t (time_out id r t)
unfolding time_out status
time_out-MovesTo id none t e = insert-MovesTo id timing_out t _ refl (rw e (stays open_))
time_out-MovesTo id (some m) t e = same-MovesTo t

pub step-MovesTo : (e : Event) (t : Table) → IsSound t → MovesTo t (step e t)
unfolding step Row register give_up status MovesTo settle
step-MovesTo (registers id) t h =
    if-keeps (MovesTo t) (not (id == "") && is_new (lookup id t.calls)) t (register id t)
      (same-MovesTo t)
      λ b.
        insert-MovesTo id publishing t (register id t) refl
          (rw (new-none (lookup id t.calls) (ground arith)) opens)
step-MovesTo (publishes id p) t h =
    if-keeps (MovesTo t) (is_publishing (lookup id t.calls)) t _ (same-MovesTo t)
      λ b. published-MovesTo id p t (publishing-some _ b)
step-MovesTo (wakes id) t h =
    if-keeps (MovesTo t) (is_waiting (lookup id t.calls)) t _ (same-MovesTo t) λ b.
      wake-MovesTo id (lookup id t.results) t (waiting-some _ b)
        (phase_in id t waiting (waiting-some _ b) h)
step-MovesTo (times_out id) t h =
    if-keeps (MovesTo t) (is_waiting (lookup id t.calls)) t _ (same-MovesTo t)
      λ b. time_out-MovesTo id (lookup id t.results) t (waiting-some _ b)
step-MovesTo (gives_up id) t h =
    if-keeps (MovesTo t) (is_timing_out (lookup id t.calls)) t (give_up id t) (same-MovesTo t) λ b.
      insert-MovesTo id (returned none) t (give_up id t) refl
        (rw (timing_out-some (lookup id t.calls) b) times_out_with_none)
step-MovesTo (receives m) t h = elim (resolve-cases m t) [
  | inl e ↦ rw (e, step) (same-MovesTo t)
  | inr (id, (f, (s, (p, e)))) ↦ rw (e, step) λ i. stays _
]

-- In any interleaving, each event either leaves a request as its caller sees it, or makes one of the
-- moves that the promise of `request` allows: it is opened once, and ends once, by an exception,
-- with None, or with a message that bears its id.
pub run-MovesTo : (es : List Event) (e : Event) → MovesTo (run es empty) (step e (run es empty))
run-MovesTo es e = step-MovesTo e (run es empty) (run-IsSound es empty empty-IsSound)
