-- ===== src/Operator/Planner/Lifecycle/Course.antt =====
-- What one call does to the status of a mission, at any point of a run.
use sbd_drones_economics.Base.{
  ℕ, String, ◌≡◌, Bool, false, some, List, [], ◌∷◌, lookup, subst, IsKeyed,
}
use sbd_drones_economics.Base.Floats.{Floats}
use sbd_drones_economics.Operator.Planner.Service.{Mission, Planner, new_planner}
use sbd_drones_economics.Operator.Planner.Lifecycle.{Request, handle, serve}
use sbd_drones_economics.Operator.Planner.Lifecycle.Steps.{Step}
use sbd_drones_economics.Operator.Planner.Lifecycle.Next.{
  creates, IsNext, handle-IsNext, handle-IsKeyed,
}

module _ (fl : Floats) where
  serve-IsKeyed :
      (rs : List (Request fl × fl.Float)) (s : Planner fl)
      → IsKeyed s.missions
      → IsKeyed (serve fl rs s).missions
  unfolding serve
  serve-IsKeyed [] s h = h
  serve-IsKeyed ((r, now) ∷ rs) s h =
      serve-IsKeyed rs (handle fl r now s) (handle-IsKeyed fl r now s h)

  -- From the start of the service, after any calls: one further call, which does not create a
  -- mission under the identifier, leaves the status of a mission that stays on record, or approves
  -- a validated one, starts an approved one, completes or aborts an active one, or, where it is
  -- neither active nor completed, makes it a draft or validated.
  pub handle-Step :
      (rs : List (Request fl × fl.Float)) (max_concurrent days : ℕ) (optimize : Bool)
      (r : Request fl) (now : fl.Float) (id : String) (m n : Mission fl)
      → creates id r ≡ false
      → lookup id (serve fl rs (new_planner fl max_concurrent days optimize)).missions ≡ some m
      → lookup id
          (handle fl r now (serve fl rs (new_planner fl max_concurrent days optimize))).missions
        ≡ some n
      → Step m.status n.status
  handle-Step rs max_concurrent days optimize r now id m n other before behind =
      let start = new_planner fl max_concurrent days optimize in
      let s = serve fl rs start in
      subst (λ x. IsNext fl (some m) x) behind
        (subst (λ x. IsNext fl x (lookup id (handle fl r now s).missions)) before
          (handle-IsNext fl r now s id other (serve-IsKeyed rs start tt)))
