-- ===== src/Abuse/Altcha/Events/Registered.antt =====
-- The rows of clients, through whatever happens.
use tunnel_weaver.Base.{List, [], ◌∷◌, ◌≡◌, inl, inr, refl, sym, subst, Option-cases, Result-cases}
use tunnel_weaver.Abuse.Altcha.{Libraries}
use tunnel_weaver.Abuse.Altcha.Proofs.{AltchaProof}
use tunnel_weaver.Abuse.Altcha.Clients.{altcha_client_live, model_to_client}
use tunnel_weaver.Abuse.Altcha.Clients.Internal.{
  IsRegistry, IsRegistry-create, IsRegistry-rotate, IsRegistry-revoke,
}
use tunnel_weaver.Abuse.Altcha.Consume.{ConsumeRequest, Tables, check_proof, verify_and_consume}
use tunnel_weaver.Abuse.Altcha.Events.{Event, sweep_task, step, steps}
use Event.{submit, sweep, create, rotate, revoke, delete_services}

-- Events that delete no service.
abbrev pub KeepsServices : {Json : Type 0} → Event Json → Type 0
KeepsServices (delete_services is_deleted now_ms) = ⊥
KeepsServices event = Unit

abbrev pub AllKeepServices : {Json : Type 0} → List (Event Json) → Type 0
AllKeepServices [] = Unit
AllKeepServices (event ∷ events) = KeepsServices event × AllKeepServices events

module _ {Json : Type 0} (lib : Libraries Json) where
  clients-verify_and_consume :
      (t : Tables) (counted : List AltchaProof) (request : ConsumeRequest Json)
      → (verify_and_consume lib t counted request).0.clients ≡ t.clients
  unfolding verify_and_consume
  clients-verify_and_consume t counted request =
      elim (Option-cases (altcha_client_live t.clients request.client)) [
        | inl e ↦ rw e refl
        | inr (row, e) ↦ rw e (elim (Result-cases (check_proof lib request (model_to_client row))) [
          | inr (refusal, f) ↦ rw f refl
          | inl (u, f) ↦ rw f refl
        ])
      ]

  step-IsRegistry :
      (event : Event Json) (t : Tables)
      → KeepsServices event
      → IsRegistry t.clients
      → IsRegistry (step lib t event).clients
  unfolding step
  step-IsRegistry (submit request counted) t keeps h =
      subst IsRegistry (sym (clients-verify_and_consume t counted request)) h
  step-IsRegistry (sweep tick now_ms) t keeps h = unfold sweep_task in h
  step-IsRegistry (create new now_ms) t keeps h = IsRegistry-create t.clients new now_ms h
  step-IsRegistry (rotate key secret now_ms) t keeps h =
      IsRegistry-rotate t.clients key secret now_ms h
  step-IsRegistry (revoke key now_ms) t keeps h = IsRegistry-revoke t.clients key now_ms h
  step-IsRegistry (delete_services is_deleted now_ms) t keeps h = absurd keeps

  -- As long as no service is deleted, which would make its clients the relay's own, no two rows share a
  -- public key and at most one client of the relay's own is live, if it was so before: through any requests,
  -- sweeps, creations, rotations and revocations.
  pub steps-IsRegistry :
      (events : List (Event Json)) (t : Tables)
      → AllKeepServices events
      → IsRegistry t.clients
      → IsRegistry (steps lib t events).clients
  unfolding steps
  steps-IsRegistry [] t keeps h = h
  steps-IsRegistry (event ∷ events) t keeps h =
      steps-IsRegistry events (step lib t event) keeps.1 (step-IsRegistry event t keeps.0 h)
