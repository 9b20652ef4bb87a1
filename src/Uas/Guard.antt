-- ===== src/Uas/Guard.antt =====
-- ServiceComponent of shared/component_base.py: the handlers of a worker, each behind the check of
-- the sender.
mod Tests
use sbd_drones_economics.Base.{
  String, ◌≡◌, refl, ap, Bool, true, false, not, Option, none, some, List, [], ◌∷◌, ◌==◌, Dict,
  lookup, insert, lookup-insert, contains, if◌then◌else◌, arith, eq_iff, Option-cases, inl, inr,
  All, ◌∙◌, sym, subst, Bool-cases,
}
use mathlib.Core.Option.{some-injective}
use sbd_drones_economics.Sdk.Message.{Message}
use sbd_drones_economics.Sdk.Component.{
  Handled, returned, Handler, Component, register_handler, setup_handlers, handle_ping,
  handle_get_status, handle_message, serve,
}

module _ {S : Type 0} (trusted_senders : List String) where
  -- `_guard`
  unfoldable pub guard : Handler S → Handler S
  guard handler m s =
      if not (contains trusted_senders m.sender)
      then (returned "{\"ok\": false, \"error\": \"direct_component_call_forbidden\"}", s)
      else handler m s

  -- `_register_handlers`
  unfoldable pub register_guarded : Dict (Handler S) → Component S → Component S
  register_guarded [] c = c
  register_guarded ((action, handler) ∷ more) c =
      register_guarded more (register_handler action (guard handler) c)

  -- A component as its constructor leaves it, given its texts.
  unfoldable pub service_component :
      Dict (Handler S) → (component_id component_type topic journal_topic : String) → Component S
  service_component handlers component_id component_type topic journal_topic =
      register_guarded handlers (
        setup_handlers (record {
          component_id = component_id;
          component_type = component_type;
          topic = topic;
          journal_topic = journal_topic;
          handlers = [];
        }))

  -- A handler that changes nothing for a sender that is not trusted.
  abbrev pub IsShy : Handler S → Type 0
  IsShy h = (m : Message) (s : S) → contains trusted_senders m.sender ≡ false → (h m s).1 ≡ s

  abbrev pub IsGuarded : Component S → Type 0
  IsGuarded c = (action : String) (h : Handler S) → lookup action c.handlers ≡ some h → IsShy h

  register_handler-IsGuarded :
      (action : String) (handler : Handler S) (c : Component S)
      → IsShy handler
      → IsGuarded c
      → IsGuarded (register_handler action handler c)
  unfolding register_handler
  register_handler-IsGuarded action handler c shy g a h found = elim (Bool-cases (action == a)) [
    | inl same ↦
        let e : some handler ≡ some h =
          sym (rw same at (lookup-insert action a handler c.handlers)) ∙ found in
        subst IsShy (some-injective _ _ e) shy
    | inr other ↦ g a h (sym (rw other at (lookup-insert action a handler c.handlers)) ∙ found)
  ]

  guard-IsShy : (handler : Handler S) → IsShy (guard handler)
  unfolding guard
  guard-IsShy handler m s foreign = rw foreign refl

  register_guarded-IsGuarded :
      (handlers : Dict (Handler S)) (c : Component S)
      → IsGuarded c
      → IsGuarded (register_guarded handlers c)
  unfolding register_guarded
  register_guarded-IsGuarded [] c g = g
  register_guarded-IsGuarded ((action, handler) ∷ more) c g =
      register_guarded-IsGuarded more (register_handler action (guard handler) c)
        (register_handler-IsGuarded action (guard handler) c (guard-IsShy handler) g)

  setup_handlers-IsGuarded : (c : Component S) → c.handlers ≡ [] → IsGuarded (setup_handlers c)
  unfolding setup_handlers handle_ping handle_get_status
  setup_handlers-IsGuarded c e =
      register_handler-IsGuarded "get_status" (handle_get_status c)
        (register_handler "ping" (handle_ping c) c) (λ m s f. refl)
        (register_handler-IsGuarded "ping" (handle_ping c) c (λ m s f. refl)
          (λ a h found. ground arith))

  handle_message-IsShy :
      (c : Component S) (m : Message) (s : S)
      → IsGuarded c
      → contains trusted_senders m.sender ≡ false
      → (handle_message c m s).1 ≡ s
  unfolding handle_message
  handle_message-IsShy c m s g foreign = elim (Option-cases (lookup m.action c.handlers)) [
    | inl unknown ↦ ground arith
    | inr (h, e) ↦ ground (arith, g m.action h e m s foreign)
  ]

  -- Messages of senders that are not trusted change nothing in a worker, whatever their actions are and
  -- whatever its handlers do.
  pub serve_untrusted :
      (handlers : Dict (Handler S)) (component_id component_type topic journal_topic : String)
      (ms : List Message) (s : S)
      → All (λ m. contains trusted_senders m.sender ≡ false) ms
      → (serve (service_component handlers component_id component_type topic journal_topic) ms s).1
        ≡ s
  unfolding service_component serve
  serve_untrusted handlers component_id component_type topic journal_topic ms s foreign =
      go ms s foreign
    where
      worker : Component S
      worker = service_component handlers component_id component_type topic journal_topic

      guarded : IsGuarded worker
      guarded = register_guarded-IsGuarded handlers _ (setup_handlers-IsGuarded _ refl)

      go :
          (ms : List Message) (s : S)
          → All (λ m. contains trusted_senders m.sender ≡ false) ms
          → (serve worker ms s).1 ≡ s
      go [] s f = refl
      go (m ∷ ms) s f = ground (arith, handle_message-IsShy worker m s guarded f.0, go ms s f.1)
