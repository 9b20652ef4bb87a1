-- ===== src/Sdk/SafeBus/Mediation.antt =====
-- What gets past the monitor.
use sbd_drones_economics.Base.{
  String, ◌≡◌, refl, Bool, true, false, subst, sym, ◌&&◌, ◌⊎◌, inl, inr, none, some, List, [], ◌∷◌,
  arith, if◌then◌else◌, All, All-append, Bool-cases,
}
use sbd_drones_economics.Sdk.SafeBus.{
  Packet, Sent, published, requested, blocked, should_skip, check, publish, request, Call,
  to_publish, to_request, to_request_async, effects, run, handle_security_check,
}

-- A call that asks the monitor; `request_async` does not.
abbrev pub IsMediated : Call → Type 0
IsMediated (to_request_async topic p) = ⊥
IsMediated _ = Unit {0}

-- A call whose check succeeded and approved the message.
abbrev pub IsApproved : Call → String → Packet → Type 0
IsApproved (to_publish (some r) topic p) t q =
    (topic ≡ t) × (p ≡ q) × (r.success ≡ true) × (r.approved ≡ true)
IsApproved (to_request (some r) topic p) t q =
    (topic ≡ t) × (p ≡ q) × (r.success ≡ true) × (r.approved ≡ true)
IsApproved _ t q = ⊥

-- One of the calls approved the message.
abbrev pub Approves : List Call → String → Packet → Type 0
Approves [] t q = ⊥
Approves (call ∷ calls) t q = IsApproved call t q ⊎ Approves calls t q

-- A message that the bus may be given after the calls: a notice of a blocked one, one that is never
-- checked, or one that the monitor approved.
abbrev pub IsCleared : String → List Call → Sent → Type 0
IsCleared monitor_topic calls (blocked r t a s) = Unit {0}
IsCleared monitor_topic calls (published t q) =
    (should_skip monitor_topic t q ≡ true) ⊎ Approves calls t q
IsCleared monitor_topic calls (requested t q) =
    (should_skip monitor_topic t q ≡ true) ⊎ Approves calls t q

given :
    (mt : String) (call : Call) (calls : List Call) (xs : List Sent)
    → effects mt call ≡ xs
    → All (IsCleared mt (call ∷ calls)) xs
    → All (IsCleared mt (call ∷ calls)) (effects mt call)
given mt call calls xs e h = subst (All (IsCleared mt (call ∷ calls))) (sym e) h

effects-IsCleared :
    (monitor_topic : String) (call : Call) (calls : List Call)
    → IsMediated call
    → All (IsCleared monitor_topic (call ∷ calls)) (effects monitor_topic call)
unfolding effects publish request check
effects-IsCleared mt (to_request_async t p) calls m = elim m [ ]
effects-IsCleared mt (to_publish none t p) calls m = elim (Bool-cases (should_skip mt t p)) [
  | inl skip ↦
      given mt (to_publish none t p) calls (published t p ∷ []) (ground arith) (inl skip, tt)
  | inr asked ↦
      given mt (to_publish none t p) calls
        (blocked ("security monitor unavailable") t p.action p.sender ∷ []) (ground arith) (tt, tt)
]
effects-IsCleared mt (to_publish (some r) t p) calls m = elim (Bool-cases (should_skip mt t p)) [
  | inl skip ↦
      given mt (to_publish (some r) t p) calls (published t p ∷ []) (ground arith) (inl skip, tt)
  | inr asked ↦ elim (Bool-cases (r.success && r.approved)) [
    | inl good ↦
        given mt (to_publish (some r) t p) calls (published t p ∷ []) (ground arith)
          (inr (inl (refl, refl, ground arith, ground arith)), tt)
    | inr bad ↦
        given mt (to_publish (some r) t p) calls
          (blocked ((check (some r)).1) t p.action p.sender ∷ []) (ground arith) (tt, tt)
  ]
]
effects-IsCleared mt (to_request none t p) calls m = elim (Bool-cases (should_skip mt t p)) [
  | inl skip ↦
      given mt (to_request none t p) calls (requested t p ∷ []) (ground arith) (inl skip, tt)
  | inr asked ↦ given mt (to_request none t p) calls [] (ground arith) tt
]
effects-IsCleared mt (to_request (some r) t p) calls m = elim (Bool-cases (should_skip mt t p)) [
  | inl skip ↦
      given mt (to_request (some r) t p) calls (requested t p ∷ []) (ground arith) (inl skip, tt)
  | inr asked ↦ elim (Bool-cases (r.success && r.approved)) [
    | inl good ↦
        given mt (to_request (some r) t p) calls (requested t p ∷ []) (ground arith)
          (inr (inl (refl, refl, ground arith, ground arith)), tt)
    | inr bad ↦ given mt (to_request (some r) t p) calls [] (ground arith) tt
  ]
]

IsCleared-cons :
    (mt : String) (call : Call) (calls : List Call) (x : Sent)
    → IsCleared mt calls x
    → IsCleared mt (call ∷ calls) x
IsCleared-cons mt call calls (blocked r t a s) h = tt
IsCleared-cons mt call calls (published t q) (inl h) = inl h
IsCleared-cons mt call calls (published t q) (inr h) = inr (inr h)
IsCleared-cons mt call calls (requested t q) (inl h) = inl h
IsCleared-cons mt call calls (requested t q) (inr h) = inr (inr h)

All-cons :
    (mt : String) (call : Call) (calls : List Call) (xs : List Sent)
    → All (IsCleared mt calls) xs
    → All (IsCleared mt (call ∷ calls)) xs
All-cons mt call calls [] h = tt
All-cons mt call calls (x ∷ xs) h =
    (IsCleared-cons mt call calls x h.0, All-cons mt call calls xs h.1)

-- Of any calls of publish and request, the inner bus is given nothing but notices of blocked
-- messages, messages that are exempt from the check, and messages that the monitor approved in one
-- of the calls: a monitor that is silent or fails lets nothing else pass.
pub run-IsCleared :
    (monitor_topic : String) (calls : List Call)
    → All IsMediated calls
    → All (IsCleared monitor_topic calls) (run monitor_topic calls)
unfolding run
run-IsCleared mt [] m = tt
run-IsCleared mt (call ∷ calls) m =
    All-append (IsCleared mt (call ∷ calls)) (effects mt call) (run mt calls)
      (effects-IsCleared mt call calls m.0)
      (All-cons mt call calls (run mt calls) (run-IsCleared mt calls m.1))

-- With a monitor that answers by its policy, a message that is not exempt is published exactly where
-- the policy approves it, and requested exactly there.
handle_security_check-publish :
    (check_message : (target_topic action sender payload : String) → Bool × String)
    (monitor_topic topic : String) (p : Packet)
    → should_skip monitor_topic topic p ≡ false
    → let answer = some (handle_security_check check_message topic p) in
      let verdict = check_message topic p.action p.sender p.payload in
      (publish monitor_topic answer topic p ≡ (
        if verdict.0
        then (true, published topic p ∷ [])
        else (false, blocked verdict.1 topic p.action p.sender ∷ [])))
      × (request monitor_topic answer topic p
          ≡ (if verdict.0 then (true, requested topic p ∷ []) else (false, [])))
unfolding publish request check handle_security_check
handle_security_check-publish check_message mt topic p asked = ground arith
