-- ===== src/Link/Transaction.antt =====
-- src/Services/Link/ClockSyncTransaction.h. Its response transaction keeps what it is given.
use lo_la.Prelude.{ℕ, Bool, true, false, ◌&&◌, if◌then◌else◌, ltb, ◌==◌, u8, sub32, ◌≡◌, ◌↔◌, arith}

-- ClockSyncRequestTransaction: its stages are 0, Requested and ResultIn.
pub data RequestStage : Type 0 where
  clear requested result_in : RequestStage

pub record RequestTransaction : Type 0 where
  pub stage : RequestStage
  pub id : ℕ
  pub last_requested : ℕ
  pub result : ℕ

abbrev pub new_request : RequestTransaction
new_request = record { stage = clear; id = 0; last_requested = 0; result = 0 }

abbrev is_requested_stage : RequestStage → Bool
is_requested_stage requested = true
is_requested_stage _ = false

abbrev is_result_in : RequestStage → Bool
is_result_in result_in = true
is_result_in _ = false

unfoldable pub is_requested : RequestTransaction → Bool
is_requested t = is_requested_stage t.stage

unfoldable pub is_result_waiting : RequestTransaction → Bool
is_result_waiting t = is_result_in t.stage

-- `random(0, UINT8_MAX)` is the argument `drawn`.
unfoldable pub set_requested : (millis drawn : ℕ) → RequestTransaction → RequestTransaction
set_requested millis drawn t = record t {
  stage = requested;
  id = u8 drawn;
  last_requested = millis;
}

unfoldable pub set_result :
    (request_id result_error : ℕ) → RequestTransaction → RequestTransaction × Bool
unfolding is_requested
set_result request_id result_error t =
    if is_requested t && t.id == request_id
    then (record t { result = result_error; stage = result_in }, true)
    else (t, false)

unfoldable pub is_fresh : (millis lifetime_millis : ℕ) → RequestTransaction → Bool
is_fresh millis lifetime_millis t = ltb (sub32 millis t.last_requested) lifetime_millis

abbrev pub reset : RequestTransaction → RequestTransaction
reset t = new_request

-- ClockSyncResponseTransaction
pub record ResponseTransaction : Type 0 where
  pub response_ready : Bool
  pub response_id : ℕ
  pub response_result : ℕ

unfoldable pub set_response :
    (request_id estimation_error : ℕ) → ResponseTransaction → ResponseTransaction
set_response request_id estimation_error t = record {
  response_ready = true;
  response_id = request_id;
  response_result = estimation_error;
}

-- The Reset of the base class, which keeps the result.
unfoldable pub reset_response : ResponseTransaction → ResponseTransaction
reset_response t = record t { response_ready = false; response_id = 0 }

-- After a request a result is taken exactly if it carries the drawn id; then it waits, and no second
-- result is taken for the same request.
pub result_taken_once :
    (millis drawn id error id' error' : ℕ) (t : RequestTransaction)
    → let (t', taken) = set_result id error (set_requested millis drawn t) in
      ((taken ≡ true) ↔ (id ≡ u8 drawn))
      × (is_result_waiting t' ≡ taken)
      × (taken && (set_result id' error' t').1 ≡ false)
unfolding set_result is_requested is_result_waiting set_requested
result_taken_once millis drawn id error id' error' t = ground arith
