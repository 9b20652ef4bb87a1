-- ===== src/Uas/Analytics/Delivery.antt =====
-- How delivery goes on record, and that no failure reaches the caller of `try_emit`.
use sbd_drones_economics.Base.{
  String, Bool, true, false, not, ◌&&◌, if◌then◌else◌, Option, some, ◌≡◌, refl, inl, inr,
  Bool-cases, is_some,
}
use sbd_drones_economics.Outcome.{Result, ok, err, Exception, result_cases, ◌>>=◌}
use sbd_drones_economics.Uas.Analytics.{
  Payload, Row, Adapter, HttpOutcome, Sent, write, send, try_emit, post_event, disabled_row,
  delivery_row, failed_row, on_failure, after_write,
}

-- The row after a call of `send`: as it wrote it, or a failure where it raised and the handler's own
-- write works.
unfoldable pub settled :
    (str : Exception → String) (handler_works : Bool)
    → Adapter
    → Option Row
    → Result Sent × Option Row
    → Option Row
unfolding failed_row
settled str handler_works a before (ok _, later) = later
settled str handler_works a before (err e, later) =
    if handler_works then some (failed_row a (str e)) else before

-- One write of a row, in `send` and in `try_emit`.
settled-write :
    (str : Exception → String) (works handler_works : Bool) (a : Adapter) (row : Row)
    (answer : Sent) (table : Option Row)
    → after_write str handler_works a (write works row table)
      ≡ settled str handler_works a table
          ((write works row table).0 >>= λ _. ok answer, (write works row table).1)
unfolding settled write on_failure after_write failed_row
settled-write str true handler_works a row answer table = refl
settled-write str false true a row answer table = refl
settled-write str false false a row answer table = refl

-- A failure before any write.
settled-err :
    (str : Exception → String) (handler_works : Bool) (a : Adapter) (e : Exception)
    (table : Option Row)
    → on_failure str handler_works a e table ≡ settled str handler_works a table (err e, table)
unfolding settled write on_failure failed_row
settled-err str true a e table = refl
settled-err str false a e table = refl

module _ (urlopen : String → Payload → HttpOutcome) (str : Exception → String) where
  -- `try_emit` writes what `send` writes; where `send` raises it records the failure, if the database
  -- then works, and otherwise changes nothing.
  pub try_emit-send :
      (works handler_works : Bool) (a : Adapter) (event : Payload) (table : Option Row)
      → try_emit urlopen str works handler_works a event table
        ≡ settled str handler_works a table (send urlopen works a event table)
  unfolding try_emit send
  try_emit-send works handler_works a event table =
      elim (Bool-cases (not a.enabled && not (is_some a.client))) [
        | inl off ↦
            rw (try_emit, send, off)
              (settled-write str works handler_works a (disabled_row a) _ table)
        | inr on ↦ elim (result_cases (post_event urlopen a event)) [
          | inl (reply, e) ↦
              rw (try_emit, send, on, e)
                (settled-write str works handler_works a (delivery_row a reply) _ table)
          | inr (x, e) ↦ rw (try_emit, send, on, e) (settled-err str handler_works a x table)
        ]
      ]
