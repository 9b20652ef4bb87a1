-- ===== src/Operator/Planner/Lifecycle/Steps.antt =====
-- The changes of status that one call can make.
use sbd_drones_economics.Base.{◌≡◌, false}
use sbd_drones_economics.Operator.Planner.Plan.{
  MissionStatus, draft, validated, approved, active, completed, aborted,
}
use sbd_drones_economics.Operator.Planner.Service.{is_locked}

-- The ways in which a call changes a status.
pub data Step : MissionStatus → MissionStatus → Type 0 where
  kept : {a : MissionStatus} → Step a a
  redrafted : {a : MissionStatus} → is_locked a ≡ false → Step a draft
  revalidated : {a : MissionStatus} → is_locked a ≡ false → Step a validated
  approval : Step validated approved
  takeoff : Step approved active
  completion : Step active completed
  abortion : Step active aborted
