-- ===== src/Uas/Monitor/Denial.antt =====
-- What the monitor lets through, and who can change that.
use mathlib.Core.List.{append-nil, append_assoc}
use sbd_drones_economics.Base.{
  Any, ap, inl, inr, ◌⊎◌, Bool-cases, String, ◌≡◌, refl, sym, ◌∙◌, Bool, true, false, not, ◌&&◌,
  ◌||◌, some, List, [], ◌∷◌, ◌++◌, arith, ◌==◌, eq_iff, eq_refl, if◌then◌else◌, keep, strip, All,
  All-append, subst,
}
use sbd_drones_economics.Uas.Monitor.{
  Policy, is_same, has, matches, any_matches, is_allowed, inbound, Request, Reply, Sent, Monitor,
  Bus, can_manage_policies, extract_target, policy_from_payload, handle_proxy_request,
  handle_proxy_publish, handle_set_policy, handle_remove_policy, handle_clear_policies, handle,
  serve,
}

has-any_matches :
    (sender topic action : String) (ps : List Policy)
    → has (record { sender = sender; topic = topic; action = action }) ps ≡ true
    → any_matches sender topic action ps ≡ true
unfolding matches
has-any_matches sender topic action [] h = ground arith
has-any_matches sender topic action (p ∷ ps) h = ground (
  arith,
  has-any_matches sender topic action ps,
  eq_iff sender p.sender,
  eq_iff topic p.topic,
  eq_iff action p.action,
  eq_iff p.sender sender,
  eq_iff p.topic topic,
  eq_iff p.action action,
)

-- A message is allowed exactly where some policy matches it: the exact test decides nothing more.
is_allowed-any_matches :
    (sender topic action : String) (ps : List Policy)
    → is_allowed sender topic action ps ≡ any_matches sender topic action ps
unfolding is_allowed
is_allowed-any_matches sender topic action ps =
    ground (arith, has-any_matches sender topic action ps)

-- The sender of a message.
abbrev pub sender_of : Request → String
sender_of (Request.proxy_request s t a d) = s
sender_of (Request.proxy_publish s t a d) = s
sender_of (Request.set_policy s ps t a) = s
sender_of (Request.remove_policy s ps t a) = s
sender_of (Request.clear_policies s) = s
sender_of Request.list_policies = ""

-- A message that the administrator of the policies did not send.
abbrev pub IsForeign : Monitor → Request → Type 0
IsForeign m r = can_manage_policies (strip (sender_of r)) m ≡ false

-- A policy that lets the sender send this: it names the sender, and the topic and the action or a `*`.
pub record Permits (sender : String) (x : Sent) (p : Policy) : Type 0 where
  pub by_sender : p.sender ≡ sender
  pub by_topic : (p.topic ≡ "*") ⊎ (p.topic ≡ x.topic)
  pub by_action : (p.action ≡ "*") ⊎ (p.action ≡ x.action)

-- A request to pass on what was sent.
abbrev pub AsksFor : Request → Sent → Type 0
AsksFor (Request.proxy_request s t a d) x =
    x ≡ record { topic = strip t; action = strip a; payload = d }
AsksFor (Request.proxy_publish s t a d) x =
    x ≡ record { topic = strip t; action = strip a; payload = d }
AsksFor _ x = ⊥

-- Some request asks for what was sent, and some policy lets the sender of that request send it.
abbrev pub IsPermitted : List Policy → List Request → Sent → Type 0
IsPermitted ps rs x = Any (λ r. AsksFor r x × Any (λ p. Permits (strip (sender_of r)) x p) ps) rs

matches-Permits :
    (sender topic action payload : String) (p : Policy)
    → matches sender topic action p ≡ true
    → Permits sender (record { topic = topic; action = action; payload = payload }) p
unfolding matches
matches-Permits sender topic action payload p h = record {
  by_sender = ground (arith, h, eq_iff p.sender sender);
  by_topic = ground (arith, h, eq_iff p.topic "*", eq_iff p.topic topic);
  by_action = ground (arith, h, eq_iff p.action "*", eq_iff p.action action);
}

any_matches-Permits :
    (sender topic action payload : String) (ps : List Policy)
    → any_matches sender topic action ps ≡ true
    → Any (λ p. Permits sender (record { topic = topic; action = action; payload = payload }) p) ps
any_matches-Permits sender topic action payload [] h = ground (arith, h)
any_matches-Permits sender topic action payload (p ∷ ps) h =
    elim (Bool-cases (matches sender topic action p)) [
      | inl fits ↦ inl (matches-Permits sender topic action payload p fits)
      | inr unfit ↦ inr (any_matches-Permits sender topic action payload ps (rw unfit at h))
    ]

is_allowed-Permits :
    (sender topic action payload : String) (ps : List Policy)
    → is_allowed sender topic action ps ≡ true
    → Any (λ p. Permits sender (record { topic = topic; action = action; payload = payload }) p) ps
is_allowed-Permits sender topic action payload ps h =
    any_matches-Permits sender topic action payload ps
      (sym (is_allowed-any_matches sender topic action ps) ∙ h)

module _ (bus : Bus) where
  handle-policies :
      (r : Request) (m : Monitor)
      → IsForeign m r
      → ((handle bus r m).1.policies ≡ m.policies)
        × ((handle bus r m).1.policy_admin_sender ≡ m.policy_admin_sender)
  unfolding handle handle_proxy_request handle_proxy_publish handle_set_policy handle_remove_policy
      handle_clear_policies
  handle-policies (Request.proxy_request s t a d) m h = ground arith
  handle-policies (Request.proxy_publish s t a d) m h = ground arith
  handle-policies (Request.set_policy s ps t a) m h = ground arith
  handle-policies (Request.remove_policy s ps t a) m h = ground arith
  handle-policies (Request.clear_policies s) m h = ground arith
  handle-policies Request.list_policies m h = (refl, refl)

  IsForeign-eq :
      (rs : List Request) (m m' : Monitor)
      → m'.policy_admin_sender ≡ m.policy_admin_sender
      → All (IsForeign m) rs
      → All (IsForeign m') rs
  unfolding can_manage_policies
  IsForeign-eq [] m m' e a = tt
  IsForeign-eq (r ∷ rs) m m' e a = (ground (arith, a.0), IsForeign-eq rs m m' e a.1)

  -- Messages that the administrator of the policies did not send, in whatever number and order,
  -- leave the policies as they are; where no administrator is named, those are all messages.
  serve-policies :
      (rs : List Request) (m : Monitor)
      → All (IsForeign m) rs
      → (serve bus rs m).policies ≡ m.policies
  unfolding serve
  serve-policies [] m h = refl
  serve-policies (r ∷ rs) m h =
      let (same, admin) = handle-policies r m h.0 in
      serve-policies rs (handle bus r m).1 (IsForeign-eq rs m (handle bus r m).1 admin h.1) ∙ same

  set_policy-sent :
      (s ps t a : String) (m : Monitor) → (handle_set_policy bus s ps t a m).1.sent ≡ m.sent
  unfolding handle_set_policy
  set_policy-sent s ps t a m = ground arith

  remove_policy-sent :
      (s ps t a : String) (m : Monitor) → (handle_remove_policy bus s ps t a m).1.sent ≡ m.sent
  unfolding handle_remove_policy
  remove_policy-sent s ps t a m = ground arith

  clear_policies-sent : (s : String) (m : Monitor) → (handle_clear_policies bus s m).1.sent ≡ m.sent
  unfolding handle_clear_policies
  clear_policies-sent s m = ground arith

  proxy_request-sent :
      (s t a d : String) (m : Monitor)
      → (handle_proxy_request bus s t a d m).1 ≡ (
          if not (strip t == "" || strip a == "")
            && (is_allowed (strip s) (strip t) (strip a) m.policies
                && is_allowed m.topic (strip t) inbound m.policies)
          then record m {
            sent = m.sent ++ record { topic = strip t; action = strip a; payload = d } ∷ [];
          }
          else m)
  unfolding handle_proxy_request extract_target
  proxy_request-sent s t a d m = ground arith

  proxy_publish-sent :
      (s t a d : String) (m : Monitor)
      → (handle_proxy_publish bus s t a d m).1 ≡ (
          if not (strip t == "" || strip a == "")
            && is_allowed (strip s) (strip t) (strip a) m.policies
          then record m {
            sent = m.sent ++ record { topic = strip t; action = strip a; payload = d } ∷ [];
          }
          else m)
  unfolding handle_proxy_publish extract_target
  proxy_publish-sent s t a d m = ground arith

  -- What was put on the bus since: each of it permitted.
  abbrev pub SendsPermitted : List Policy → List Request → Monitor → Monitor → Type 0
  SendsPermitted ps rs m m' =
      (new : List Sent) × (m'.sent ≡ m.sent ++ new) × All (IsPermitted ps rs) new

  nothing_new :
      (ps : List Policy) (rs : List Request) (m m' : Monitor)
      → m'.sent ≡ m.sent
      → SendsPermitted ps rs m m'
  nothing_new ps rs m m' e = ([], e ∙ sym (append-nil m.sent), tt)

  one_more-SendsPermitted :
      (ps : List Policy) (r : Request) (guard : Bool) (x : Sent) (m : Monitor)
      → (guard ≡ true → AsksFor r x × Any (λ p. Permits (strip (sender_of r)) x p) ps)
      → SendsPermitted ps (r ∷ []) m (if guard then record m { sent = m.sent ++ x ∷ [] } else m)
  one_more-SendsPermitted ps r true x m g = (x ∷ [], refl, (inl (g refl), tt))
  one_more-SendsPermitted ps r false x m g = nothing_new ps (r ∷ []) m m refl

  handle-SendsPermitted :
      (r : Request) (m : Monitor) → SendsPermitted m.policies (r ∷ []) m (handle bus r m).1
  unfolding handle
  handle-SendsPermitted (Request.proxy_request s t a d) m = rw proxy_request-sent (
      one_more-SendsPermitted m.policies (Request.proxy_request s t a d) _
        (record { topic = strip t; action = strip a; payload = d }) m
        (λ e. (refl, is_allowed-Permits (strip s) (strip t) (strip a) d m.policies (ground arith))))
  handle-SendsPermitted (Request.proxy_publish s t a d) m = rw proxy_publish-sent (
      one_more-SendsPermitted m.policies (Request.proxy_publish s t a d) _
        (record { topic = strip t; action = strip a; payload = d }) m
        (λ e. (refl, is_allowed-Permits (strip s) (strip t) (strip a) d m.policies (ground arith))))
  handle-SendsPermitted (Request.set_policy s ps t a) m =
      nothing_new m.policies (Request.set_policy s ps t a ∷ []) m
        (handle_set_policy bus s ps t a m).1 (set_policy-sent s ps t a m)
  handle-SendsPermitted (Request.remove_policy s ps t a) m =
      nothing_new m.policies (Request.remove_policy s ps t a ∷ []) m
        (handle_remove_policy bus s ps t a m).1 (remove_policy-sent s ps t a m)
  handle-SendsPermitted (Request.clear_policies s) m =
      nothing_new m.policies (Request.clear_policies s ∷ []) m (handle_clear_policies bus s m).1
        (clear_policies-sent s m)
  handle-SendsPermitted Request.list_policies m =
      nothing_new m.policies (Request.list_policies ∷ []) m m refl

  IsPermitted-more :
      (ps : List Policy) (rs rs' : List Request) (xs : List Sent)
      → ((x : Sent) → IsPermitted ps rs x → IsPermitted ps rs' x)
      → All (IsPermitted ps rs) xs
      → All (IsPermitted ps rs') xs
  IsPermitted-more ps rs rs' [] f h = tt
  IsPermitted-more ps rs rs' (x ∷ xs) f h = (f x h.0, IsPermitted-more ps rs rs' xs f h.1)

  first_of :
      (ps : List Policy) (r : Request) (rs : List Request) (x : Sent)
      → IsPermitted ps (r ∷ []) x
      → IsPermitted ps (r ∷ rs) x
  first_of ps r rs x (inl h) = inl h
  first_of ps r rs x (inr h) = elim h [ ]

  -- While the administrator of the policies sends nothing, each message that the monitor puts on the
  -- bus was asked for by one of the requests, with this topic, action and payload, and one of the
  -- policies names the sender of that request, and that topic and action or a star.
  pub serve-IsPermitted :
      (rs : List Request) (m : Monitor)
      → All (IsForeign m) rs
      → (new : List Sent) × ((serve bus rs m).sent ≡ m.sent ++ new)
        × All (IsPermitted m.policies rs) new
  unfolding serve
  serve-IsPermitted [] m f = nothing_new m.policies [] m m refl
  serve-IsPermitted (r ∷ rs) m f =
      let (same, admin) = handle-policies r m f.0 in
      let m1 = (handle bus r m).1 in
      let (first, e, h) = handle-SendsPermitted r m in
      let (later, e', h') = serve-IsPermitted rs m1 (IsForeign-eq rs m m1 admin f.1) in
      (
        first ++ later,
        e' ∙ ap (λ l. l ++ later) e ∙ append_assoc m.sent first later,
        All-append (IsPermitted m.policies (r ∷ rs)) first later
            (IsPermitted-more m.policies (r ∷ []) (r ∷ rs) first (first_of m.policies r rs) h)
            (IsPermitted-more m.policies rs (r ∷ rs) later (λ x k. inr k)
              (subst (λ ps. All (IsPermitted ps rs) later) same h')),
      )

keep-others :
    (p : Policy) (ps : List Policy) → has p ps ≡ false → keep (λ q. not (is_same p q)) ps ≡ ps
keep-others p [] h = refl
keep-others p (q ∷ qs) h = ground (arith, keep-others p qs)

is_same_refl : (p : Policy) → is_same p p ≡ true
is_same_refl p = ground (arith, eq_refl p.sender, eq_refl p.topic, eq_refl p.action)

-- Where the administrator adds a policy that is new and then removes it, the monitor is as before.
remove_policy-set_policy :
    (bus : Bus) (admin s t a : String) (p : Policy) (m : Monitor)
    → can_manage_policies (strip admin) m ≡ true
    → policy_from_payload s t a ≡ some p
    → has p m.policies ≡ false
    → (handle_remove_policy bus admin s t a (handle_set_policy bus admin s t a m).1)
      ≡ (Reply.removed true p, m)
unfolding handle_remove_policy handle_set_policy can_manage_policies
remove_policy-set_policy bus admin s t a p m may valid new =
    ground (arith, keep-others p m.policies, is_same_refl p)
