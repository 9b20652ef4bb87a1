-- ===== src/Operator/Security/Service/Rate.antt =====
-- Which messages the service refuses for their rate.
use sbd_drones_economics.Base.{
  ℕ, ◌+◌, ◌≤◌, String, ◌≡◌, refl, Bool, true, false, List, [], ◌∷◌, ◌++◌, arith, ◌==◌,
  lookup-insert, lookup-insert_self, if◌then◌else◌, count, count-append, one_if, All, leb,
}
use sbd_drones_economics.Operator.Security.{
  Log, validate_request, check_rate_limit, limit_of, is_recent,
}
use sbd_drones_economics.Operator.Security.Service.{
  Message, Service, Reply, Call, history_of, remember, settle, notify, process_request,
}

abbrev pub is_rate_refusal : Reply → Bool
is_rate_refusal (Reply.refused reason details policy) = reason == "rate_limit_exceeded"
is_rate_refusal _ = false

validate_request-type :
    (m : Message) (now : ℕ) (s : Service) (log : Log)
    → is_rate_refusal
        (settle m
          (validate_request m.context now log).0.0
          (validate_request m.context now log).0.1
          s).0
      ≡ false
unfolding validate_request settle
validate_request-type m now s log = ground arith

process_request-refusal :
    (m : Message) (checked now : ℕ) (s : Service)
    → is_rate_refusal (process_request m checked now s).0
      ≡ leb (limit_of m.context.action) (
          count (λ t. is_recent checked t) (history_of m.context.sender_id s)
          + one_if (is_recent checked m.timestamp))
unfolding process_request remember check_rate_limit
process_request-refusal m checked now s = ground (
  arith,
  validate_request-type m now
      (record (remember m s) {
        violations_log = (validate_request m.context now s.violations_log).1;
      })
      s.violations_log,
  lookup-insert_self m.context.sender_id (history_of m.context.sender_id s ++ m.timestamp ∷ [])
      s.request_history,
  count-append (λ t. is_recent checked t) (history_of m.context.sender_id s) (m.timestamp ∷ []),
)

-- A recent message is refused for its rate exactly if, without it, at least one less than the limit
-- of its action recent time stamps of its sender are remembered: the message that is asked for
-- counts itself. Stamps that are not recent do not count.
pub process_request_rate :
    (m : Message) (checked now : ℕ) (s : Service)
    → is_recent checked m.timestamp ≡ true
    → is_rate_refusal (process_request m checked now s).0
      ≡ leb
          (limit_of m.context.action)
          (count (λ t. is_recent checked t) (history_of m.context.sender_id s) + 1)
process_request_rate m checked now s recent =
    ground (arith, process_request-refusal m checked now s)

-- A message whose time stamp is not recent when it is checked.
abbrev pub IsStale : ℕ → Call → Type 0
IsStale checked (m, at, now) = (is_recent checked m.timestamp ≡ false) × (at ≡ checked)

-- No sender has a recent message on record.
abbrev pub HasNoRecent : ℕ → Service → Type 0
HasNoRecent checked s =
    (sender : String) → count (λ t. is_recent checked t) (history_of sender s) ≡ 0

-- How many of the messages are refused for their rate.
unfoldable pub rate_refusals : List Call → Service → ℕ
rate_refusals [] s = 0
rate_refusals ((m, checked, now) ∷ calls) s =
    one_if (is_rate_refusal (process_request m checked now s).0)
    + rate_refusals calls (process_request m checked now s).1

limit_of_pos : (action : String) (n : ℕ) → leb (limit_of action) n ≡ true → 10 ≤ n
unfolding limit_of
limit_of_pos action n h = ground arith

process_request-history :
    (m : Message) (checked now : ℕ) (s : Service) (sender : String)
    → history_of sender (process_request m checked now s).1 ≡ history_of sender (remember m s)
unfolding process_request settle notify
process_request-history m checked now s sender = ground arith

remember-history :
    (m : Message) (s : Service) (sender : String)
    → history_of sender (remember m s) ≡ (
        if m.context.sender_id == sender
        then history_of m.context.sender_id s ++ m.timestamp ∷ []
        else history_of sender s)
unfolding remember
remember-history m s sender = ground (
  arith,
  lookup-insert m.context.sender_id sender (history_of m.context.sender_id s ++ m.timestamp ∷ [])
      s.request_history,
)

stale_request :
    (m : Message) (checked now : ℕ) (s : Service)
    → is_recent checked m.timestamp ≡ false
    → HasNoRecent checked s
    → (is_rate_refusal (process_request m checked now s).0 ≡ false)
      × HasNoRecent checked (process_request m checked now s).1
stale_request m checked now s old h = (
  ground (
    arith,
    process_request-refusal m checked now s,
    h m.context.sender_id,
    limit_of_pos m.context.action 0,
  ),
  λ sender. ground (
    arith,
    process_request-history m checked now s sender,
    remember-history m s sender,
    h sender,
    h m.context.sender_id,
    count-append (λ t. is_recent checked t) (history_of m.context.sender_id s) (m.timestamp ∷ []),
  ),
)

-- Where no recent message is on record, messages with old time stamps, which their senders choose,
-- are never refused for their rate, however many come within one moment.
rate_refusals_stale :
    (calls : List Call) (checked : ℕ) (s : Service)
    → All (IsStale checked) calls
    → HasNoRecent checked s
    → rate_refusals calls s ≡ 0
unfolding rate_refusals
rate_refusals_stale [] checked s old h = refl
rate_refusals_stale ((m, at, now) ∷ calls) checked s ((old, same), more) h =
    let (passed, h') = stale_request m checked now s old h in
    rw same (
      ground (
        arith,
        passed,
        rate_refusals_stale calls checked (process_request m checked now s).1 more h',
      ))
