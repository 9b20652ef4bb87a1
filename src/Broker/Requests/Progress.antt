-- ===== src/Broker/Requests/Progress.antt =====
-- `request` ends: the turns that a call takes are bounded, and a call that has not ended can take one.
use sbd_drones_economics.Base.{
  String, ℕ, ◌+◌, ◌≤◌, ◌<◌, one_if, Option, none, some, List, [], ◌∷◌, lookup, insert, ◌==◌, ◌≡◌,
  refl, subst, inl, inr, arith, ltb, not, ◌&&◌, eq_iff, Bool-cases, Option-cases,
  lookup-insert_self, lookup-insert_ne,
}
use sbd_drones_economics.Broker.Requests.Invariant.{
  resolve-cases, if-keeps, new-none, publishing-some, waiting-some, timing_out-some,
}
use sbd_drones_economics.Broker.Requests.{
  Message, Phase, publishing, waiting, timing_out, raised, returned, Published, sent, refused,
  raises, Table, register, settle, is_new, published, wake, time_out, give_up, Event, registers,
  wakes, times_out, gives_up, publishes, receives, is_publishing, is_waiting, is_timing_out, step,
  run,
}

-- The turns that a call has left at most.
unfoldable pub turns_left : Option Phase → ℕ
turns_left none = 4
turns_left (some publishing) = 3
turns_left (some waiting) = 2
turns_left (some timing_out) = 1
turns_left (some raised) = 0
turns_left (some (returned _)) = 0

unfoldable pub left_of : String → Table → ℕ
unfolding turns_left
left_of id t = turns_left (lookup id t.calls)

-- The events of a run that move the call.
unfoldable pub turns : String → List Event → Table → ℕ
unfolding left_of
turns id [] t = 0
turns id (e ∷ es) t = one_if (ltb (left_of id (step e t)) (left_of id t)) + turns id es (step e t)

-- The next action of the thread that makes the call. What `publish` does is the broker's choice.
unfoldable pub next_action : String → Published → Option Phase → Option Message → Option Event
next_action id p none r = none
next_action id p (some publishing) r = some (publishes id p)
next_action id p (some waiting) none = some (times_out id)
next_action id p (some waiting) (some m) = some (wakes id)
next_action id p (some timing_out) r = some (gives_up id)
next_action id p (some raised) r = none
next_action id p (some (returned _)) r = none

NoMore : Table → Table → Type 0
NoMore t u = (id : String) → left_of id u ≤ left_of id t

same-NoMore : (t : Table) → NoMore t t
unfolding NoMore
same-NoMore t id = omega arith

insert-left :
    (id : String) (c : Phase) (t u : Table)
    → u.calls ≡ insert id c t.calls
    → turns_left (some c) ≤ turns_left (lookup id t.calls)
    → NoMore t u
unfolding NoMore left_of
insert-left id c t u e less i = elim (Bool-cases (id == i)) [
  | inl same ↦
      subst (λ j. left_of j u ≤ left_of j t) {x = id} (ground (arith, eq_iff id i))
        (rw (e, lookup-insert_self id c t.calls) less)
  | inr ne ↦ rw (e, lookup-insert_ne id i c t.calls ne) (omega arith)
]

published-left :
    (id : String) (p : Published) (t : Table)
    → lookup id t.calls ≡ some publishing
    → NoMore t (published id p t)
unfolding published turns_left
published-left id sent t e = insert-left id waiting t _ refl (rw e (omega arith))
published-left id refused t e = insert-left id (returned none) t _ refl (rw e (omega arith))
published-left id raises t e = insert-left id raised t _ refl (rw e (omega arith))

wake-left :
    (id : String) (r : Option Message) (t : Table)
    → lookup id t.calls ≡ some waiting
    → NoMore t (wake id r t)
unfolding wake turns_left
wake-left id none t e = same-NoMore t
wake-left id (some m) t e = insert-left id (returned (some m)) t _ refl (rw e (omega arith))

time_out-left :
    (id : String) (r : Option Message) (t : Table)
    → lookup id t.calls ≡ some waiting
    → NoMore t (time_out id r t)
unfolding time_out turns_left
time_out-left id none t e = insert-left id timing_out t _ refl (rw e (omega arith))
time_out-left id (some m) t e = same-NoMore t

-- No event gives a call turns back.
step-left : (e : Event) (t : Table) → NoMore t (step e t)
unfolding step register give_up settle turns_left NoMore left_of
step-left (registers id) t =
    if-keeps (NoMore t) (not (id == "") && is_new (lookup id t.calls)) t (register id t)
      (same-NoMore t)
      λ b.
        insert-left id publishing t (register id t) refl
          (rw (new-none (lookup id t.calls) (ground arith)) (omega arith))
step-left (publishes id p) t =
    if-keeps (NoMore t) (is_publishing (lookup id t.calls)) t _ (same-NoMore t)
      λ b. published-left id p t (publishing-some _ b)
step-left (wakes id) t =
    if-keeps (NoMore t) (is_waiting (lookup id t.calls)) t _ (same-NoMore t)
      λ b. wake-left id (lookup id t.results) t (waiting-some _ b)
step-left (times_out id) t =
    if-keeps (NoMore t) (is_waiting (lookup id t.calls)) t _ (same-NoMore t)
      λ b. time_out-left id (lookup id t.results) t (waiting-some _ b)
step-left (gives_up id) t =
    if-keeps (NoMore t) (is_timing_out (lookup id t.calls)) t (give_up id t) (same-NoMore t) λ b.
      insert-left id (returned none) t (give_up id t) refl
        (rw (timing_out-some (lookup id t.calls) b) (omega arith))
step-left (receives m) t = elim (resolve-cases m t) [
  | inl e ↦ rw (e, step) (same-NoMore t)
  | inr (id, (f, (s, (p, e)))) ↦ rw (e, step) λ i. omega arith
]

turns_bound :
    (id : String) (es : List Event) (t : Table)
    → turns id es t + left_of id (run es t) ≤ left_of id t
unfolding turns run NoMore
turns_bound id [] t = omega arith
turns_bound id (e ∷ es) t = ground (arith, turns_bound id es (step e t), step-left e t id)

-- The next action of a call that has not ended moves it.
next_action-moves :
    (id : String) (p : Published) (t : Table) (c : Phase)
    → lookup id t.calls ≡ some c
    → 0 < turns_left (some c)
    → (e : Event) × ((next_action id p (lookup id t.calls) (lookup id t.results) ≡ some e)
        × (left_of id (step e t) < left_of id t))
unfolding next_action step published wake time_out give_up turns_left left_of is_publishing
    is_waiting is_timing_out
next_action-moves id sent t publishing h l =
    (publishes id sent, (rw h refl, rw (h, lookup-insert_self id waiting t.calls) (omega arith)))
next_action-moves id refused t publishing h l = (
  publishes id refused,
  (rw h refl, rw (h, lookup-insert_self id (returned none) t.calls) (omega arith)),
)
next_action-moves id raises t publishing h l =
    (publishes id raises, (rw h refl, rw (h, lookup-insert_self id raised t.calls) (omega arith)))
next_action-moves id p t waiting h l = elim (Option-cases (lookup id t.results)) [
  | inl r ↦ (
    times_out id,
    (rw (h, r) refl, rw (h, r, lookup-insert_self id timing_out t.calls) (omega arith)),
  )
  | inr (m, r) ↦ (
    wakes id,
    (rw (h, r) refl, rw (h, r, lookup-insert_self id (returned (some m)) t.calls) (omega arith)),
  )
]
next_action-moves id p t timing_out h l =
    (gives_up id, (rw h refl, rw (h, lookup-insert_self id (returned none) t.calls) (omega arith)))
next_action-moves id p t raised h l = ground arith
next_action-moves id p t (returned r) h l = ground arith

-- Every call of `request` ends.
pub request_ends :
    (id : String) (es : List Event) (t : Table) (p : Published)
    → lookup id t.calls ≡ some publishing
    → (turns id es t + left_of id (run es t) ≤ 3)
      × (0 < left_of id (run es t)
          → (e : Event) × ((next_action id p
                  (lookup id (run es t).calls)
                  (lookup id (run es t).results)
                ≡ some e)
              × (left_of id (step e (run es t)) < left_of id (run es t))))
unfolding left_of turns_left
request_ends id es t p h = (
  bound,
  λ more. elim (Option-cases (lookup id (run es t).calls)) [
    | inl gone ↦ ground (arith, bound, rw gone at bound)
    | inr (c, there) ↦ next_action-moves id p (run es t) c there (rw there at more)
  ],
)
  where
    bound : turns id es t + left_of id (run es t) ≤ 3
    bound = rw h at (turns_bound id es t)
