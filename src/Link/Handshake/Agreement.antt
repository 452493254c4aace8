-- ===== src/Link/Handshake/Agreement.antt =====
-- The exchange of public keys between src/Services/Link/LoLaLinkHostService.h and
-- src/Services/Link/LoLaLinkRemoteService.h, and the secret that both give to their encoders.
use lo_la.Prelude.{
  ℕ, ◌≡◌, refl, sym, ◌∙◌, ap, subst, Bool, true, some, List, take, Bool-cases, inl, inr, ◌&&◌, ◌==◌,
}
use lo_la.Crypto.Library.{CryptoLibrary, HashIsLawful}
use lo_la.Crypto.Encoder.{Encoder, all_ready, set_secret_key, set_token_seed, key_size}
use lo_la.Crypto.Encoder.Laws.{token_seed-set_secret_key}
use lo_la.Crypto.KeyExchange.{
  IsLawful, KeyExchanger, generate_new_key_pair, generate_shared_key, get_public_key_compressed,
  set_partner_public_key,
}
use lo_la.Crypto.KeyExchange.Agreement.{shared_key_agrees}
use lo_la.Services.Send.{schedule}
use lo_la.Link.Info.{has_session}
use lo_la.Link.Service.{
  Platform, Moment, LinkClient, Link, is_awaiting_link, reset_last_sent_time_stamp,
}
use lo_la.Link.Service.Session.{set_linking_state}
use lo_la.Link.Host.{Host}
use lo_la.Link.Host.Awaiting.{
  expects, on_remote_public_key_received, on_processing_pkc, agree_on_key, use_shared_key,
}
use lo_la.Link.Remote.{RemoteLink}
use lo_la.Link.Remote.Awaiting.{on_host_public_key_received, on_processing_shared_key}

abbrev pub encoder_of : {B S P : Type 0} → Link B S P → Encoder
encoder_of s = s.client.node.driver.encoder

-- What the cypher's library answers to a key and an IV.
pub record Accepts (lib : CryptoLibrary) : Type 0 where
  pub takes_key : (key : List ℕ) → lib.set_key_ok key ≡ true
  pub takes_iv : (iv : List ℕ) → lib.set_iv_ok iv ≡ true

module _ (lib : CryptoLibrary) (accepts : Accepts lib) where
  secret_kept :
      (key : List ℕ) (e : Encoder)
      → let (e', ok) = set_secret_key lib key 20 e in
        (ok ≡ true)
        × (e'.encoder_state ≡ all_ready)
        × (e'.key_holder ≡ take key_size key)
        × (e'.iv_holder ≡ e.iv_holder)
        × (e'.token_holder ≡ e.token_holder)
  unfolding set_secret_key set_token_seed
  secret_kept key e =
      rw (accepts.takes_key (take key_size key), accepts.takes_iv e.iv_holder)
        (refl, refl, refl, refl, refl)

module _ {B S : Type 0} (p : Platform B S) (m : Moment) where
  agreed :
      {P : Type 0} (c : LinkClient B S P)
      → let (x, made) = generate_shared_key p.ecc c.exchanger in
        let (e, ok) = set_secret_key p.crypto x.shared_key 20 c.node.driver.encoder in
        made ≡ true → ((agree_on_key p c).1 ≡ ok) × ((agree_on_key p c).0.node.driver.encoder ≡ e)
  unfolding agree_on_key use_shared_key
  agreed c h = rw h (refl, refl)

  host_processed :
      (h : Host B S)
      → (agree_on_key p h.client).1 ≡ true
      → ((on_processing_pkc p m h).client.linking_state ≡ 4)
        × (encoder_of (on_processing_pkc p m h) ≡ (agree_on_key p h.client).0.node.driver.encoder)
  unfolding on_processing_pkc set_linking_state schedule reset_last_sent_time_stamp
  host_processed h e = rw e (refl, refl)

  remote_processed :
      (r : RemoteLink B S)
      → (agree_on_key p r.client).1 ≡ true
      → ((on_processing_shared_key p m r).client.linking_state ≡ 4)
        × (encoder_of (on_processing_shared_key p m r)
            ≡ (agree_on_key p r.client).0.node.driver.encoder)
  unfolding on_processing_shared_key set_linking_state schedule reset_last_sent_time_stamp
  remote_processed r e = rw e (refl, refl)

-- The remote waits for the host's key, in this session.
abbrev pub awaits_host_key : {B S : Type 0} → ℕ → RemoteLink B S → Bool
awaits_host_key session r =
    is_awaiting_link r.client.info.link_state
    && r.client.linking_state == 2
    && has_session r.client.info
    && r.client.info.session_id == session

-- Two encoders that understand one another once they are enabled.
pub record Agree (e f : Encoder) : Type 0 where
  pub ready : (e.encoder_state ≡ all_ready) × (f.encoder_state ≡ all_ready)
  pub same_key : e.key_holder ≡ f.key_holder
  pub same_iv : e.iv_holder ≡ f.iv_holder
  pub same_token : e.token_holder ≡ f.token_holder
  pub same_seed : e.token_seed ≡ f.token_seed

Agree-subst : {e e' f f' : Encoder} → e ≡ e' → f ≡ f' → Agree e' f' → Agree e f
Agree-subst {e} {e'} {f} {f'} h g a =
    subst (λ z. Agree z f) (sym h) (subst (λ z. Agree e' z) (sym g) a)

set_secret_key-Agree :
    (lib : CryptoLibrary)
    → Accepts lib
    → HashIsLawful lib
    → (key : List ℕ) (e f : Encoder) → e.iv_holder ≡ f.iv_holder
    → e.token_holder ≡ f.token_holder
    → Agree (set_secret_key lib key 20 e).0 (set_secret_key lib key 20 f).0
set_secret_key-Agree lib accepts hash key e f i t =
    let a = secret_kept lib accepts key e in
    let b = secret_kept lib accepts key f in
    record {
      ready = (a.1, b.1);
      same_key = a.2 ∙ sym b.2;
      same_iv = a.3 ∙ (i ∙ sym b.3);
      same_token = a.4 ∙ (t ∙ sym b.4);
      same_seed = token_seed-set_secret_key lib hash key key 20 e f i t a.0 b.0;
    }

module _ {B S : Type 0} (p : Platform B S) (m : Moment) (accepts : Accepts p.crypto) where
  -- Where the shared key is made, the processing ends in stage 4 with the encoder it was given to.
  host_gets_key :
      (h : Host B S) (x : KeyExchanger)
      → h.client.exchanger ≡ x
      → (generate_shared_key p.ecc x).1 ≡ true
      → ((on_processing_pkc p m h).client.linking_state ≡ 4)
        × (encoder_of (on_processing_pkc p m h)
            ≡ (set_secret_key p.crypto
                (generate_shared_key p.ecc x).0.shared_key
                20
                (encoder_of h)).0)
  host_gets_key h x e made =
      let made' = ap (λ y. (generate_shared_key p.ecc y).1) e ∙ made in
      let a = agreed p m h.client made' in
      let ok =
        secret_kept p.crypto accepts (generate_shared_key p.ecc h.client.exchanger).0.shared_key
          (encoder_of h) in
      let done = host_processed p m h (a.0 ∙ ok.0) in
      (
        done.0,
        done.1
            ∙ (a.1
                ∙ ap
                    (λ y.
                      (set_secret_key p.crypto (generate_shared_key p.ecc y).0.shared_key 20
                        (encoder_of h)).0)
                    e),
      )

  remote_gets_key :
      (r : RemoteLink B S) (x : KeyExchanger)
      → r.client.exchanger ≡ x
      → (generate_shared_key p.ecc x).1 ≡ true
      → ((on_processing_shared_key p m r).client.linking_state ≡ 4)
        × (encoder_of (on_processing_shared_key p m r)
            ≡ (set_secret_key p.crypto
                (generate_shared_key p.ecc x).0.shared_key
                20
                (encoder_of r)).0)
  remote_gets_key r x e made =
      let made' = ap (λ y. (generate_shared_key p.ecc y).1) e ∙ made in
      let a = agreed p m r.client made' in
      let ok =
        secret_kept p.crypto accepts (generate_shared_key p.ecc r.client.exchanger).0.shared_key
          (encoder_of r) in
      let done = remote_processed p m r (a.0 ∙ ok.0) in
      (
        done.0,
        done.1
            ∙ (a.1
                ∙ ap
                    (λ y.
                      (set_secret_key p.crypto (generate_shared_key p.ecc y).0.shared_key 20
                        (encoder_of r)).0)
                    e),
      )

module _ {B S : Type 0} where
  host_took :
      (session : ℕ) (key : List ℕ) (h : Host B S)
      → expects 2 session h ≡ true
      → let h' = on_remote_public_key_received session key h in
        (h'.client.exchanger ≡ (set_partner_public_key key h.client.exchanger).0)
        × (encoder_of h' ≡ encoder_of h)
  unfolding on_remote_public_key_received set_linking_state schedule reset_last_sent_time_stamp
  host_took session key h e = elim (Bool-cases (set_partner_public_key key h.client.exchanger).1) [
    | inl f ↦ rw (e, f) (refl, refl)
    | inr f ↦ rw (e, f) (refl, refl)
  ]

  remote_took :
      (session : ℕ) (key : List ℕ) (r : RemoteLink B S)
      → awaits_host_key session r ≡ true
      → let r' = on_host_public_key_received session key r in
        (r'.client.exchanger ≡ (set_partner_public_key key r.client.exchanger).0)
        × (encoder_of r' ≡ encoder_of r)
  unfolding on_host_public_key_received set_linking_state schedule reset_last_sent_time_stamp
  remote_took session key r e =
      elim (Bool-cases (set_partner_public_key key r.client.exchanger).1) [
        | inl f ↦ rw (e, f) (refl, refl)
        | inr f ↦ rw (e, f) (refl, refl)
      ]

module _ {B S : Type 0} (p : Platform B S) (m1 m2 : Moment) (id : ℕ) (accepts : Accepts p.crypto)
    (hash : HashIsLawful p.crypto) (curve : IsLawful p.ecc) where
  -- The platform of the partner, which has another id.
  abbrev partner : Platform B S
  partner = record p { local_id = id }

  -- A host and a remote that wait for one another's key in the same session, each with a fresh key
  -- pair, and whose encoders have the same IV and token. Each is told the public key that the other
  -- reads of its exchanger, and processes it: both come to stage 4 with encoders that are ready and
  -- hold the same key, IV, token and token seed. The curve, the cypher and the hash are as their
  -- libraries document them.
  pub handshake_agrees :
      (public private public' private' : List ℕ) (x y : KeyExchanger) (session : ℕ) (h : Host B S)
      (r : RemoteLink B S)
      → p.ecc.is_key_pair public private ≡ true
      → p.ecc.is_key_pair public' private' ≡ true
      → h.client.exchanger ≡ (generate_new_key_pair p.ecc (some (public, private)) x).0
      → r.client.exchanger ≡ (generate_new_key_pair p.ecc (some (public', private')) y).0
      → expects 2 session h ≡ true
      → awaits_host_key session r ≡ true
      → (encoder_of h).iv_holder ≡ (encoder_of r).iv_holder
      → (encoder_of h).token_holder ≡ (encoder_of r).token_holder
      → (host_key : List ℕ) × (remote_key : List ℕ) × (get_public_key_compressed h.client.exchanger
          ≡ some host_key)
        × (get_public_key_compressed r.client.exchanger ≡ some remote_key)
        × (let h' = on_processing_pkc p m1 (on_remote_public_key_received session remote_key h) in
            let r' =
              on_processing_shared_key partner m2
                (on_host_public_key_received session host_key r) in
            (h'.client.linking_state ≡ 4)
            × (r'.client.linking_state ≡ 4)
            × Agree (encoder_of h') (encoder_of r'))
  handshake_agrees public private public' private' x y session h r k k' eh er wh wr i t =
      let (hk, rk, gh, gr, made) =
        shared_key_agrees p.ecc curve public private public' private' x y k k' in
      let th = host_took session rk h wh in
      let tr = remote_took session hk r wr in
      let ph =
        host_gets_key p m1 accepts (on_remote_public_key_received session rk h) _
          (th.0 ∙ ap (λ z. (set_partner_public_key rk z).0) eh) made.0 in
      let pr =
        remote_gets_key partner m2 accepts (on_host_public_key_received session hk r) _
          (tr.0 ∙ ap (λ z. (set_partner_public_key hk z).0) er) made.1 in
      (
        hk,
        rk,
        ap get_public_key_compressed eh ∙ gh,
        ap get_public_key_compressed er ∙ gr,
        (
          ph.0,
          pr.0,
          Agree-subst
              (ph.1
                ∙ ap
                    (λ key.
                      (set_secret_key p.crypto key 20
                        (encoder_of (on_remote_public_key_received session rk h))).0)
                    made.2)
              pr.1
              (set_secret_key-Agree p.crypto accepts hash _
                (encoder_of (on_remote_public_key_received session rk h))
                (encoder_of (on_host_public_key_received session hk r))
                (ap Encoder.iv_holder th.1 ∙ (i ∙ sym (ap Encoder.iv_holder tr.1)))
                (ap Encoder.token_holder th.1 ∙ (t ∙ sym (ap Encoder.token_holder tr.1)))),
        ),
      )
