-- ===== src/Regulator/Issue.antt =====
-- Which certificates the regulator confirms.
use sbd_drones_economics.Base.{
  String, ◌≡◌, refl, false, some, List, [], ◌∷◌, arith, ◌||◌, ◌&&◌, ◌==◌, eq_iff, ◌⊕◌, lookup,
  insert, lookup-insert, contains, strip, if◌then◌else◌, inl, inr, Option-cases, Bool-cases, ◌∙◌,
}
use sbd_drones_economics.Outcome.{ok}
use sbd_drones_economics.Regulator.{
  Regulator, Request, Reply, is_held_by, handle, serve, handle_register_system,
  handle_verify_system, handle_register_drone_cert, handle_verify_drone_cert,
  handle_register_operator_cert, handle_verify_operator_cert,
}
use text.Mathlib.TextLemmas.{append_cancel_left}

-- The drones that the messages ask a certificate for.
abbrev pub certified_drones : List Request → List String
certified_drones [] = []
certified_drones (Request.register_drone_cert i ∷ qs) =
    if strip i == "" then certified_drones qs else strip i ∷ certified_drones qs
certified_drones (_ ∷ qs) = certified_drones qs

-- Every certificate stands under its own name.
abbrev pub IsIssued : List (String × String) → Type 0
IsIssued certs = (c h : String) → lookup c certs ≡ some h → c ≡ "cert-drone-" ⊕ h

insert-IsIssued :
    (d : String) (certs : List (String × String))
    → IsIssued certs
    → IsIssued (insert ("cert-drone-" ⊕ d) d certs)
insert-IsIssued d certs issued c h found =
    ground
      (arith, lookup-insert ("cert-drone-" ⊕ d) c d certs, eq_iff ("cert-drone-" ⊕ d) c, issued c h)

is_held_by-insert :
    (c d i : String) (certs : List (String × String))
    → IsIssued certs
    → is_held_by c d (insert ("cert-drone-" ⊕ i) i certs)
      ≡ (is_held_by c d certs || c == ("cert-drone-" ⊕ d) && d == i)
is_held_by-insert c d i certs issued = elim (Option-cases (lookup c certs)) [
  | inl e ↦ ground (
    arith,
    lookup-insert ("cert-drone-" ⊕ i) c i certs,
    eq_iff ("cert-drone-" ⊕ i) c,
    eq_iff c ("cert-drone-" ⊕ d),
    eq_iff i d,
    eq_iff d i,
  )
  | inr (h, e) ↦ ground (
    arith,
    lookup-insert ("cert-drone-" ⊕ i) c i certs,
    issued c h e,
    append_cancel_left "cert-drone-" i h,
    eq_iff ("cert-drone-" ⊕ i) c,
    eq_iff c ("cert-drone-" ⊕ d),
    eq_iff i d,
    eq_iff d i,
    eq_iff h d,
  )
]

-- What a message does to the certificates of drones.
abbrev certs_after : Request → List (String × String) → List (String × String)
certs_after (Request.register_drone_cert i) certs =
    if strip i == "" then certs else insert ("cert-drone-" ⊕ strip i) (strip i) certs
certs_after _ certs = certs

handle-drone_certs :
    (q : Request) (r : Regulator) → (handle q r).1.drone_certs ≡ certs_after q r.drone_certs
unfolding handle handle_register_system handle_verify_system handle_register_drone_cert
    handle_verify_drone_cert handle_register_operator_cert handle_verify_operator_cert
handle-drone_certs (Request.register_system i t) r = ground arith
handle-drone_certs (Request.verify_system i) r = refl
handle-drone_certs (Request.register_drone_cert i) r = ground arith
handle-drone_certs (Request.verify_drone_cert i c) r = ground arith
handle-drone_certs (Request.register_operator_cert i) r = ground arith
handle-drone_certs (Request.verify_operator_cert i c) r = ground arith

certs_after-IsIssued :
    (q : Request) (certs : List (String × String)) → IsIssued certs → IsIssued (certs_after q certs)
certs_after-IsIssued (Request.register_drone_cert i) certs issued =
    elim (Bool-cases (strip i == "")) [
      | inl blank ↦ rw blank issued
      | inr named ↦ rw named (insert-IsIssued (strip i) certs issued)
    ]
certs_after-IsIssued (Request.register_system i t) certs issued = issued
certs_after-IsIssued (Request.verify_system i) certs issued = issued
certs_after-IsIssued (Request.verify_drone_cert i c) certs issued = issued
certs_after-IsIssued (Request.register_operator_cert i) certs issued = issued
certs_after-IsIssued (Request.verify_operator_cert i c) certs issued = issued

is_held_by-certs_after :
    (c d : String) (q : Request) (qs : List Request) (certs : List (String × String))
    → IsIssued certs
    → (is_held_by c d (certs_after q certs)
        || c == ("cert-drone-" ⊕ d) && contains (certified_drones qs) d)
      ≡ (is_held_by c d certs || c == ("cert-drone-" ⊕ d) && contains (certified_drones (q ∷ qs)) d)
is_held_by-certs_after c d (Request.register_drone_cert i) qs certs issued =
    ground (arith, is_held_by-insert c d (strip i) certs issued)
is_held_by-certs_after c d (Request.register_system i t) qs certs issued = refl
is_held_by-certs_after c d (Request.verify_system i) qs certs issued = refl
is_held_by-certs_after c d (Request.verify_drone_cert i k) qs certs issued = refl
is_held_by-certs_after c d (Request.register_operator_cert i) qs certs issued = refl
is_held_by-certs_after c d (Request.verify_operator_cert i k) qs certs issued = refl

nil-IsIssued : IsIssued []
nil-IsIssued c h found = ground arith

serve-is_held_by :
    (c d : String) (qs : List Request) (r : Regulator)
    → IsIssued r.drone_certs
    → is_held_by c d (serve qs r).drone_certs ≡ (
        is_held_by c d r.drone_certs
        || c == ("cert-drone-" ⊕ d) && contains (certified_drones qs) d)
unfolding serve
serve-is_held_by c d [] r issued = ground arith
serve-is_held_by c d (q ∷ qs) r issued =
    serve-is_held_by c d qs (handle q r).1
      (rw (handle-drone_certs q r) (certs_after-IsIssued q r.drone_certs issued))
    ∙ (rw (handle-drone_certs q r) (is_held_by-certs_after c d q qs r.drone_certs issued))

-- From a regulator that has issued nothing: after any messages, a certificate is confirmed for a
-- drone exactly if it bears that drone's name and one of the messages asked a certificate for it;
-- both texts are not blank, and blanks around them do not matter.
pub verify_drone_cert_iff :
    (drone_id certificate_id : String) (qs : List Request)
    → (strip drone_id == "") ≡ false
    → (strip certificate_id == "") ≡ false
    → (handle_verify_drone_cert drone_id certificate_id
        (serve qs (record { systems = []; drone_certs = []; operator_certs = [] }))).0
      ≡ ok (
          Reply.valid
            (strip certificate_id == ("cert-drone-" ⊕ strip drone_id)
              && contains (certified_drones qs) (strip drone_id))
            (strip drone_id)
            (strip certificate_id))
unfolding handle_verify_drone_cert
verify_drone_cert_iff drone_id certificate_id qs named certified = ground (
  arith,
  serve-is_held_by (strip certificate_id) (strip drone_id) qs
      (record { systems = []; drone_certs = []; operator_certs = [] }) nil-IsIssued,
)
