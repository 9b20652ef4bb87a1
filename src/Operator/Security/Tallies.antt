-- ===== src/Operator/Security/Tallies.antt =====
-- What the summary of the violations counts.
use sbd_drones_economics.Base.{
  ℕ, ◌+◌, ◌≤◌, String, ◌≡◌, refl, ap, [], ◌∷◌, ◌++◌, arith, ◌==◌, eq_iff, Dict, lookup,
  lookup-insert, length, count, drop, length-drop, or_default, one_if, zero, suc, ◌-◌,
}
use sbd_drones_economics.Operator.Security.{
  Violation, Log, tally, tally_all, get_violations_summary,
}

tally-counts :
    (k s : String) (d : Dict ℕ)
    → or_default (lookup s (tally k d)) 0 ≡ or_default (lookup s d) 0 + one_if (k == s)
unfolding tally
tally-counts k s d = ground (arith, lookup-insert k s (or_default (lookup k d) 0 + 1) d, eq_iff k s)

pub tally_all-counts :
    (key : Violation → String) (s : String) (log : Log) (d : Dict ℕ)
    → or_default (lookup s (tally_all key log d)) 0
      ≡ or_default (lookup s d) 0 + count (λ v. key v == s) log
unfolding tally_all
tally_all-counts key s [] d = omega arith
tally_all-counts key s (v ∷ log) d =
    omega (arith, tally_all-counts key s log (tally (key v) d), tally-counts (key v) s d)

drop-suffix : (n : ℕ) (log : Log) → (earlier : Log) × (log ≡ earlier ++ drop n log)
drop-suffix zero log = ([], refl)
drop-suffix (suc n) [] = ([], refl)
drop-suffix (suc n) (v ∷ log) =
    let (earlier, e) = drop-suffix n log in (v ∷ earlier, ap (λ l. v ∷ l) e)

-- The summary counts each severity and each policy as often as the log has it, and all violations;
-- the recent ones are the end of the log, ten at most.
get_violations_summary_lem :
    (log : Log) (s p : String)
    → let summary = get_violations_summary log in
      (summary.total_violations ≡ length log)
      × (or_default (lookup s summary.by_severity) 0 ≡ count (λ v. v.severity == s) log)
      × (or_default (lookup p summary.by_policy) 0 ≡ count (λ v. v.policy_id == p) log)
      × (length summary.recent_violations ≤ 10)
      × ((earlier : Log) × (log ≡ earlier ++ summary.recent_violations))
unfolding get_violations_summary
get_violations_summary_lem log s p = (
  refl,
  omega (arith, tally_all-counts (λ v. v.severity) s log []),
  omega (arith, tally_all-counts (λ v. v.policy_id) p log []),
  omega (arith, length-drop (length log - 10) log),
  drop-suffix (length log - 10) log,
)
