-- ===== src/Link/Machine.antt =====
-- The state machine that the host and the remote of src/Services/Link share, on three values: the
-- link state, the linking state and the encoder's stage. The last two numbers of a handshake are
-- the same on both sides: 4 has a shared key, 5 is about to link.
pub mod Host
pub mod Remote
pub mod Steps
pub mod Kept
pub mod Service
pub mod Process
use lo_la.Prelude.{ℕ, zero, suc, ◌<◌, Bool, true, false, ◌||◌, ltb, ◌==◌, ◌≡◌, refl, ap, arith}
use lo_la.Crypto.Encoder.{Stage, all_clear, all_ready, full_power, is_full_power}
use lo_la.Link.Service.{takes_pings, is_awaiting_link, is_linking}
use lo_la.Link.Info.{LinkState, disabled, setup, awaiting_link, awaiting_sleeping, linking, linked}

pub record Phase : Type 0 where
  pub link_state : LinkState
  pub stage : ℕ
  pub encoder_stage : Stage

-- The states that begin with a clean session.
abbrev pub is_resting : LinkState → Bool
is_resting setup = true
is_resting awaiting_link = true
is_resting awaiting_sleeping = true
is_resting _ = false

-- The states from which each of them is entered: Setup by OnEnable, AwaitingLink from all but
-- Disabled, AwaitingSleeping from AwaitingLink.
abbrev pub rests_from : (state previous : LinkState) → Bool
rests_from setup previous = true
rests_from awaiting_link disabled = false
rests_from awaiting_link _ = true
rests_from awaiting_sleeping previous = is_awaiting_link previous
rests_from _ previous = false

-- The stages that a state leaves for the next number.
abbrev pub is_stage : LinkState → ℕ → Bool
is_stage awaiting_link n = ltb n 3 || n == 4
is_stage linking n = ltb n 3
is_stage _ n = false

-- What SetEnabled makes of a stage.
abbrev pub enabled_stage : Stage → Stage
enabled_stage all_clear = all_clear
enabled_stage all_ready = full_power
enabled_stage full_power = full_power

-- The moves. `rest` clears the session at whatever stage; `wake` is a return to AwaitingLink
-- from AwaitingSleeping, with a packet taken at once.
pub data Moves : Phase → Phase → Type 0 where
  stay : {x : Phase} → Moves x x
  rest :
      {x : Phase} {state : LinkState}
      → rests_from state x.link_state ≡ true
      → Moves x (record { link_state = state; stage = 0; encoder_stage = all_clear })
  halt :
      {x : Phase} (e : Stage)
      → Moves x (record { link_state = disabled; stage = x.stage; encoder_stage = e })
  restage :
      {x : Phase} {n : ℕ}
      → is_awaiting_link x.link_state ≡ true
      → n < 2
      → Moves x (record x { stage = n })
  advance :
      {x : Phase} {n : ℕ}
      → x.stage ≡ n
      → is_stage x.link_state n ≡ true
      → Moves x (record x { stage = suc n })
  key :
      {x : Phase}
      → is_awaiting_link x.link_state ≡ true
      → x.stage ≡ 3
      → Moves x (record { link_state = awaiting_link; stage = 4; encoder_stage = all_ready })
  start :
      {x : Phase}
      → is_awaiting_link x.link_state ≡ true
      → x.stage ≡ 5
      → Moves x (record {
        link_state = linking;
        stage = 0;
        encoder_stage = enabled_stage x.encoder_stage;
      })
  establish :
      {x : Phase}
      → is_linking x.link_state ≡ true
      → x.stage ≡ 3
      → Moves x (record { link_state = linked; stage = 3; encoder_stage = x.encoder_stage })
  wake :
      {x : Phase} {n : ℕ}
      → x.link_state ≡ awaiting_sleeping
      → n < 2
      → Moves x (record { link_state = awaiting_link; stage = n; encoder_stage = all_clear })

abbrev pub holds_key : Stage → Bool
holds_key all_clear = false
holds_key _ = true

-- A key is loaded once it was agreed on, and used from Linking on.
pub record IsSecured (x : Phase) : Type 0 where
  pub has_key :
      is_awaiting_link x.link_state ≡ true
      → 3 < x.stage
      → x.stage < 6
      → holds_key x.encoder_stage ≡ true
  pub enciphers : takes_pings x.link_state ≡ true → is_full_power x.encoder_stage ≡ true

pub resting :
    (state previous : LinkState) → rests_from state previous ≡ true → is_resting state ≡ true
resting state previous h = ground arith

pub awaiting_rests :
    (previous : LinkState)
    → is_awaiting_link previous ≡ true
    → rests_from awaiting_link previous ≡ true
awaiting_rests previous h = ground arith

pub linking_rests :
    (previous : LinkState) → is_linking previous ≡ true → rests_from awaiting_link previous ≡ true
linking_rests previous h = ground arith

resting_quiet : (state : LinkState) → is_resting state ≡ true → takes_pings state ≡ false
resting_quiet state h = ground arith

stage_advanced :
    (state : LinkState) (n : ℕ)
    → is_stage state n ≡ true
    → is_awaiting_link state ≡ true
    → 3 < suc n
    → n ≡ 4
stage_advanced state n h a l = ground arith

linking_pings : (state : LinkState) → is_linking state ≡ true → takes_pings state ≡ true
linking_pings state h = ground arith

enabled-full : (e : Stage) → holds_key e ≡ true → is_full_power (enabled_stage e) ≡ true
enabled-full e h = ground arith

-- Each move keeps the link secured.
pub moves-IsSecured : {x y : Phase} → Moves x y → IsSecured x → IsSecured y
moves-IsSecured stay s = s
moves-IsSecured (rest {x} {state} h) s = record {
  has_key = λ a l u. ground arith;
  enciphers = λ t. ground (arith, resting_quiet state (resting state x.link_state h));
}
moves-IsSecured (halt e) s = record { has_key = λ a. ground arith; enciphers = λ t. ground arith }
moves-IsSecured (restage {x} {n} a h) s = record {
  has_key = λ b l u. ground arith;
  enciphers = λ t. s.enciphers t;
}
moves-IsSecured (advance {x} {n} e h) s = record {
  has_key = λ a l u.
      let four = stage_advanced x.link_state n h a l in s.has_key a (omega arith) (omega arith);
  enciphers = λ t. s.enciphers t;
}
moves-IsSecured (key a n) s = record { has_key = λ a l u. refl; enciphers = λ t. ground arith }
moves-IsSecured (start {x} a n) s = record {
  has_key = λ b. ground arith;
  enciphers = λ t. enabled-full x.encoder_stage (s.has_key a (omega arith) (omega arith));
}
moves-IsSecured (establish {x} a n) s = record {
  has_key = λ b. ground arith;
  enciphers = λ t. s.enciphers (linking_pings x.link_state a);
}
moves-IsSecured (wake e h) s = record {
  has_key = λ a l u. absurd (omega arith);
  enciphers = λ t. ground arith;
}

pub disabled-IsSecured : (x : Phase) → x.link_state ≡ disabled → IsSecured x
disabled-IsSecured x d = record {
  has_key = λ a l u. ground (arith, ap is_awaiting_link d);
  enciphers = λ t. ground (arith, ap takes_pings d);
}
