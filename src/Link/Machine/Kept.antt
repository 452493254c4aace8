-- ===== src/Link/Machine/Kept.antt =====
-- Moves of the pieces that the host and the remote of src/Services/Link share, and the ways to put
-- moves together.
use lo_la.Prelude.{
  ℕ, Bool, true, false, if◌then◌else◌, ◌≡◌, refl, sym, ◌∙◌, subst, List, Bool-cases, inl, inr, ◌||◌,
  ltb, ◌==◌, ==_iff, arith,
}
use lo_la.Crypto.Encoder.{Encoder, Stage, all_clear, all_ready, set_secret_key, set_token_seed}
use lo_la.Crypto.KeyExchange.{generate_shared_key}
use lo_la.Crypto.Library.{CryptoLibrary}
use lo_la.Link.Info.{LinkState, awaiting_link}
use lo_la.Packet.Buffer.{Packet}
use lo_la.Services.Send.{schedule, request_send_packet}
use lo_la.Link.Service.{
  Platform, LinkClient, Link, send_prepared, send_after, check_again, request_send,
  is_awaiting_link, is_linking,
}
use lo_la.Link.Host.Awaiting.{agree_on_key, use_shared_key}
use lo_la.Link.Machine.{Phase, Moves, stay, rest, key, is_stage, awaiting_rests}
use lo_la.Link.Machine.Steps.{phase_of, client_stage}

awaiting_eq : (state : LinkState) → is_awaiting_link state ≡ true → state ≡ awaiting_link
awaiting_eq awaiting_link h = refl
awaiting_eq LinkState.disabled h = ground arith
awaiting_eq LinkState.setup h = ground arith
awaiting_eq LinkState.awaiting_sleeping h = ground arith
awaiting_eq LinkState.linking h = ground arith
awaiting_eq LinkState.linked h = ground arith

phase_eq :
    (y : Phase) (state : LinkState) (n : ℕ) (e : Stage)
    → y.link_state ≡ state
    → y.stage ≡ n
    → y.encoder_stage ≡ e
    → y ≡ record { link_state = state; stage = n; encoder_stage = e }
phase_eq y state n e l h g = λ i. record { link_state = l i; stage = h i; encoder_stage = g i }

-- A session that is cleared while a link is awaited.
pub rests_awaiting :
    {x y : Phase}
    → is_awaiting_link x.link_state ≡ true
    → y.link_state ≡ x.link_state
    → y.stage ≡ 0
    → y.encoder_stage ≡ all_clear
    → Moves x y
rests_awaiting {x} {y} a l n e =
    subst (λ z. Moves x z)
      (sym (phase_eq y awaiting_link 0 all_clear (l ∙ awaiting_eq x.link_state a) n e))
      (rest (awaiting_rests x.link_state a))

-- A key that is agreed on while a link is awaited.
pub keys_awaiting :
    {x y : Phase}
    → is_awaiting_link x.link_state ≡ true
    → x.stage ≡ 3
    → y.link_state ≡ x.link_state
    → y.stage ≡ 4
    → y.encoder_stage ≡ all_ready
    → Moves x y
keys_awaiting {x} {y} a s l n e =
    subst (λ z. Moves x z)
      (sym (phase_eq y awaiting_link 4 all_ready (l ∙ awaiting_eq x.link_state a) n e)) (key a s)

set_secret_key-ready :
    (lib : CryptoLibrary) (k : List ℕ) (n : ℕ) (e : Encoder)
    → (set_secret_key lib k n e).1 ≡ true
    → (set_secret_key lib k n e).0.encoder_state ≡ all_ready
unfolding set_secret_key set_token_seed
set_secret_key-ready lib k n e h = ground arith

pub awaiting_stage :
    (state : LinkState) (n : ℕ)
    → is_awaiting_link state ≡ true
    → (ltb n 3 || n == 4) ≡ true
    → is_stage state n ≡ true
awaiting_stage state n a h = subst (λ l. is_stage l n ≡ true) (sym (awaiting_eq state a)) h

pub linking_stage :
    (state : LinkState) (n : ℕ) → is_linking state ≡ true → ltb n 3 ≡ true → is_stage state n ≡ true
linking_stage state n a h = ground arith

pub ==→≡ : {a b : ℕ} → (a == b) ≡ true → a ≡ b
==→≡ {a} {b} h = (==_iff a b).0 h

-- The service is at the end of a move.
pub record Goes {B S P : Type 0} (x : Phase) (t : Link B S P) : Type 0 where
  pub moves : Moves x (phase_of t)

module _ {B S P : Type 0} where
  pub goes : {x : Phase} {t : Link B S P} → Moves x (phase_of t) → Goes x t
  goes f = record { moves = f }

  -- A test on which the move may depend.
  pub choose :
      {x : Phase} {t e : Link B S P} (b : Bool)
      → (b ≡ true → Goes x t)
      → (b ≡ false → Goes x e)
      → Goes x (if b then t else e)
  choose true f g = f refl
  choose false f g = g refl

  pub client-request_send :
      (millis : ℕ) (s : Link B S P) → (request_send millis s).client ≡ s.client
  unfolding request_send request_send_packet schedule
  client-request_send millis s = ground arith

  pub client-send_prepared :
      (millis : ℕ) (prepare : Packet → Packet) (s : Link B S P)
      → (send_prepared millis prepare s).client ≡ s.client
  unfolding send_prepared request_send request_send_packet schedule
  client-send_prepared millis prepare s = ground arith

  pub client-send_after :
      (millis period : ℕ) (prepare : Packet → Packet) (s : Link B S P)
      → (send_after millis period prepare s).client ≡ s.client
  unfolding send_after send_prepared request_send request_send_packet schedule check_again
  client-send_after millis period prepare s = ground arith

  pub after_client : {x : Phase} {s t : Link B S P} → t.client ≡ s.client → Goes x s → Goes x t
  unfolding phase_of
  after_client {x} {s} {t} h g = record { moves = rw h g.moves }

  pub here : {s : Link B S P} → Goes (phase_of s) s
  here = record { moves = stay }

  pub stays : (s : Link B S P) {t : Link B S P} → phase_of t ≡ phase_of s → Goes (phase_of s) t
  stays s h = record { moves = subst (λ y. Moves (phase_of s) y) (sym h) stay }

  pub sends :
      {x : Phase} (millis : ℕ) (prepare : Packet → Packet) {s : Link B S P}
      → Goes x s
      → Goes x (send_prepared millis prepare s)
  sends {x} millis prepare {s} g = after_client {s = s} (client-send_prepared millis prepare s) g

  pub waits : {x : Phase} {s : Link B S P} → Goes x s → Goes x (check_again s)
  unfolding check_again schedule phase_of
  waits g = record { moves = g.moves }

  -- Only the client counts.
  pub stays_client : (s : Link B S P) {t : Link B S P} → t.client ≡ s.client → Goes (phase_of s) t
  stays_client s h = after_client {s = s} h here

  pub kept : {x : Phase} {s t : Link B S P} → phase_of t ≡ phase_of s → Goes x s → Goes x t
  kept {x} h g = record { moves = subst (λ y. Moves x y) (sym h) g.moves }

  pub agree_on_key_lem :
      (p : Platform B S) (c : LinkClient B S P)
      → ((agree_on_key p c).0.info ≡ c.info)
        × ((agree_on_key p c).0.linking_state ≡ c.linking_state)
        × ((agree_on_key p c).1 ≡ true → client_stage (agree_on_key p c).0 ≡ all_ready)
  unfolding agree_on_key use_shared_key
  agree_on_key_lem p c = elim (Bool-cases (generate_shared_key p.ecc c.exchanger).1) [
    | inl e ↦ rw e (refl, refl, λ h. set_secret_key-ready p.crypto _ _ _ h)
    | inr e ↦ rw e (refl, refl, λ h. ground arith)
  ]

  -- What has not moved yet goes on from where it is.
  pub then_goes : {x y : Phase} {t : Link B S P} → y ≡ x → Goes y t → Goes x t
  then_goes {t} h f = record { moves = subst (λ z. Moves z (phase_of t)) h f.moves }
