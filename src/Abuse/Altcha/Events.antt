-- ===== src/Abuse/Altcha/Events.antt =====
-- What happens to the tables of the proof of work, one call after another: requests, the sweep of
-- crates/weaver-server/src/housekeeping.rs, and the commands on clients. A request stands where it
-- inserts its proof. The rows were counted before, by a statement of its own: the event holds the table that
-- was counted, which may be any, so that any other events may come in between. The client is taken to be
-- what it was when the request looked it up.
pub mod SingleUse
pub mod Registered
use tunnel_weaver.Base.{Bool, ℕ, ◌≤◌, ◌*◌, List, [], ◌∷◌, sat_mul63}
use tunnel_weaver.Abuse.Altcha.{Libraries}
use tunnel_weaver.Abuse.Altcha.Proofs.{AltchaProof, altcha_sweep_proofs}
use tunnel_weaver.Abuse.Altcha.Clients.{
  NewAltchaClient, altcha_client_create, altcha_client_rotate, altcha_client_revoke,
  unlink_services,
}
use tunnel_weaver.Abuse.Altcha.Consume.{ConsumeRequest, Tables, verify_and_consume}

-- A request holds its own time; the others come with the time of the clock.
pub data Event (Json : Type 0) : Type 0 where
  submit : ConsumeRequest Json → (counted : List AltchaProof) → Event Json
  sweep : (tick now_ms : ℕ) → Event Json
  create : NewAltchaClient → (now_ms : ℕ) → Event Json
  rotate : (public_key secret : List ℕ) (now_ms : ℕ) → Event Json
  revoke : (public_key : List ℕ) (now_ms : ℕ) → Event Json
  delete_services : (is_deleted : ℕ → Bool) (now_ms : ℕ) → Event Json

abbrev pub time : {Json : Type 0} → Event Json → ℕ
time (submit request counted) = request.now_ms
time (sweep tick now_ms) = now_ms
time (create new now_ms) = now_ms
time (rotate public_key secret now_ms) = now_ms
time (revoke public_key now_ms) = now_ms
time (delete_services is_deleted now_ms) = now_ms

-- `AltchaSweepTask::run`, at the tick that it was scheduled for.
unfoldable pub sweep_task : Tables → ℕ → Tables
unfolding altcha_sweep_proofs
sweep_task t tick = record t { proofs = (altcha_sweep_proofs t.proofs (sat_mul63 tick 1000)).0 }

module _ {Json : Type 0} (lib : Libraries Json) where
  unfoldable pub step : Tables → Event Json → Tables
  unfolding verify_and_consume sweep_task altcha_client_create altcha_client_rotate
      altcha_client_revoke unlink_services
  step t (submit request counted) = (verify_and_consume lib t counted request).0
  step t (sweep tick now_ms) = sweep_task t tick
  step t (create new now_ms) = record t { clients = (altcha_client_create t.clients new now_ms).0 }
  step t (rotate public_key secret now_ms) = record t {
    clients = (altcha_client_rotate t.clients public_key secret now_ms).0;
  }
  step t (revoke public_key now_ms) = record t {
    clients = (altcha_client_revoke t.clients public_key now_ms).0;
  }
  step t (delete_services is_deleted now_ms) = record t {
    clients = unlink_services is_deleted t.clients;
  }

  unfoldable pub steps : Tables → List (Event Json) → Tables
  unfolding step
  steps t [] = t
  steps t (event ∷ events) = steps (step t event) events

-- The clock does not go back, and a task runs when its tick has come.
abbrev pub IsTimely : {Json : Type 0} → Event Json → Type 0
IsTimely (sweep tick now_ms) = tick * 1000 ≤ now_ms
IsTimely event = Unit

abbrev pub InOrder : {Json : Type 0} → ℕ → List (Event Json) → ℕ → Type 0
InOrder from [] until = from ≤ until
InOrder from (event ∷ events) until =
    IsTimely event × (from ≤ time event) × InOrder (time event) events until
