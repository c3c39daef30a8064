-- ===== src/Channel/Link/Delivery.antt =====
-- Messages arrive whole, in order and once (src/common/SecureChannel.cpp).
use thread_haul_daemon.Base.{
  ℕ, ◌*◌, ◌<◌, ◌≡◌, ◌≢◌, refl, sym, ap, ◌∙◌, subst, Bool, true, not, List, [], ◌++◌, Option, none,
  some, All, if◌then◌else◌,
}
use thread_haul_daemon.Channel.Bytes.{half, nonce}
use thread_haul_daemon.Channel.Bytes.Laws.{nonce_inj}
use thread_haul_daemon.Channel.Frame.{frame_bytes, Arrival, Received, broken, frame, receive_frame}
use thread_haul_daemon.Channel.Frame.Reassembly.{concat, chunks_of, receive_frame-reassembles}
use thread_haul_daemon.Channel.Link.{
  Cipher, Channel, next_seq, send, opened_as, open_received, receive,
}

-- What is relied on of AES-GCM: decryption undoes encryption under the same key and nonce.
pub record Opens (cipher : Cipher) : Type 0 where
  pub opens :
      (key n plain sealed : List ℕ)
      → cipher.encrypt key n plain ≡ some sealed
      → cipher.decrypt key n sealed ≡ some plain

-- And: under another nonce the tag does not fit.
pub record FitsOnce (cipher : Cipher) : Type 0 where
  pub fits_once :
      (key n other plain sealed : List ℕ)
      → cipher.encrypt key n plain ≡ some sealed
      → n ≢ other
      → cipher.decrypt key other sealed ≡ none

-- Both ends are set up, the receiver `b` expects exactly the next message of the sender `a`, and its
-- receive buffer is empty.
pub record InStep (a b : Channel) : Type 0 where
  pub sender_ready : a.ready ≡ true
  pub receiver_ready : b.ready ≡ true
  pub keys : a.send_key ≡ b.recv_key
  pub ends : a.is_client ≡ not b.is_client
  pub numbers : a.send_seq ≡ b.recv_seq
  pub clear : b.rx_buffer ≡ []

step_on :
    (a b : Channel)
    → InStep a b
    → InStep
        (record a { send_seq = next_seq a.send_seq })
        (record b { rx_buffer = []; recv_seq = next_seq b.recv_seq })
step_on a b s = record {
  sender_ready = s.sender_ready;
  receiver_ready = s.receiver_ready;
  keys = s.keys;
  ends = s.ends;
  numbers = ap next_seq s.numbers;
  clear = refl;
}

module _ (cipher : Cipher) where
  -- Receiving the pieces of one sealed frame.
  receive_sealed :
      (b : Channel) (sealed bytes : List ℕ) (chunks : List (List ℕ)) (more : List Arrival)
      → b.ready ≡ true
      → b.rx_buffer ≡ []
      → frame_bytes sealed ≡ some bytes
      → All (λ c. c ≢ []) chunks
      → concat chunks ≡ bytes
      → let o = open_received cipher (frame sealed) (record b { rx_buffer = [] }) in
        receive cipher (chunks_of chunks ++ more) b ≡ (o.0, o.1, more)
  unfolding receive
  receive_sealed b sealed bytes chunks more r x f n e =
      let got =
        ap (λ buffer. receive_frame buffer (chunks_of chunks ++ more)) x
        ∙ receive_frame-reassembles sealed bytes chunks more f n e in
      let finish : Received × List ℕ × List Arrival → Received × Channel × List Arrival =
        λ g. let o = open_received cipher g.0 (record b { rx_buffer = g.1 }) in (o.0, o.1, g.2) in
      let ready_ : Bool → Received × Channel × List Arrival = λ q.
        if not q
        then (broken, b, chunks_of chunks ++ more)
        else finish (receive_frame b.rx_buffer (chunks_of chunks ++ more)) in
      ap ready_ r ∙ ap finish got

  sealed_parts :
      (o : Option (List ℕ)) (a : Channel) (bytes : List ℕ)
      → let sent : Option (List ℕ) × Channel = elim o [
        | none ↦ (none, a)
        | some sealed ↦ (frame_bytes sealed, record a { send_seq = next_seq a.send_seq })
      ] in
        sent.0 ≡ some bytes
        → (sealed : List ℕ) × (o ≡ some sealed)
          × (frame_bytes sealed ≡ some bytes)
          × (sent.1 ≡ record a { send_seq = next_seq a.send_seq })
  sealed_parts none a bytes h = cc
  sealed_parts (some sealed) a bytes h = (sealed, refl, h, refl)

  sent_parts :
      (plain bytes : List ℕ) (a : Channel)
      → a.ready ≡ true
      → (send cipher plain a).0 ≡ some bytes
      → (sealed : List ℕ) × (cipher.encrypt a.send_key (nonce a.send_seq a.is_client) plain
          ≡ some sealed)
        × (frame_bytes sealed ≡ some bytes)
        × ((send cipher plain a).1 ≡ record a { send_seq = next_seq a.send_seq })
  unfolding send
  sent_parts plain bytes a r h =
      let o = cipher.encrypt a.send_key (nonce a.send_seq a.is_client) plain in
      let sent : Option (List ℕ) × Channel = elim o [
        | none ↦ (none, a)
        | some sealed ↦ (frame_bytes sealed, record a { send_seq = next_seq a.send_seq })
      ] in
      let is_sent : send cipher plain a ≡ sent = ap (λ q. if not q then (none, a) else sent) r in
      let parts = sealed_parts o a bytes (sym (ap (λ x. x.0) is_sent) ∙ h) in
      (parts.0, parts.1, parts.2, ap (λ x. x.1) is_sent ∙ parts.3)

  -- Over a cipher that decrypts what it encrypted, let both ends be ready, the receiver expect
  -- exactly the sender's next message (the same key, number and direction) and have an empty receive
  -- buffer. If Send hands bytes to the socket and they arrive in any non-empty pieces, Receive
  -- returns the very message that was sent, takes no later arrival, and the two are so again.
  pub receive-send :
      (laws : Opens cipher) (plain bytes : List ℕ) (chunks : List (List ℕ)) (more : List Arrival)
      (a b : Channel)
      → InStep a b
      → (send cipher plain a).0 ≡ some bytes
      → All (λ c. c ≢ []) chunks
      → concat chunks ≡ bytes
      → let o = receive cipher (chunks_of chunks ++ more) b in
        (o.0 ≡ frame plain) × (o.2 ≡ more) × InStep (send cipher plain a).1 o.1
  unfolding open_received
  receive-send laws plain bytes chunks more a b s h n e =
      let sent = sent_parts plain bytes a s.sender_ready h in
      let sealed = sent.0 in
      let arrived = receive_sealed b sealed bytes chunks more s.receiver_ready s.clear sent.2 n e in
      let same_nonce =
        ap (λ q. nonce a.send_seq q) s.ends ∙ ap (λ q. nonce q (not b.is_client)) s.numbers in
      let opened =
        ap (λ k. cipher.decrypt k (nonce b.recv_seq (not b.is_client)) sealed) (sym s.keys)
        ∙ ap (λ q. cipher.decrypt a.send_key q sealed) (sym same_nonce)
        ∙ laws.opens a.send_key (nonce a.send_seq a.is_client) plain sealed sent.1 in
      let empty : Channel = record b { rx_buffer = [] } in
      let after : Option (List ℕ) → Received × Channel × List Arrival =
        λ o. let r = opened_as cipher o empty in (r.0, r.1, more) in
      let whole = arrived ∙ ap after opened in
      (
        ap (λ o. o.0) whole,
        ap (λ o. o.2) whole,
        subst (λ c. InStep c (receive cipher (chunks_of chunks ++ more) b).1) (sym sent.3)
            (subst (InStep (record a { send_seq = next_seq a.send_seq }))
              (sym (ap (λ o. o.1) whole)) (step_on a b s)),
      )

  -- Over a cipher whose tags fit under one nonce only, let a ready receiver have an empty buffer. A message sealed under
  -- its key and direction with another 64-bit sequence number than the expected one (a replayed, a
  -- reordered one, or one after a loss), arriving in any non-empty pieces, is not delivered: Receive
  -- reports a broken channel.
  pub receive-replayed :
      (laws : FitsOnce cipher) (plain sealed bytes : List ℕ) (seq : ℕ) (chunks : List (List ℕ))
      (more : List Arrival) (b : Channel)
      → b.ready ≡ true
      → b.rx_buffer ≡ []
      → seq < half * half
      → b.recv_seq < half * half
      → seq ≢ b.recv_seq
      → cipher.encrypt b.recv_key (nonce seq (not b.is_client)) plain ≡ some sealed
      → frame_bytes sealed ≡ some bytes
      → All (λ c. c ≢ []) chunks
      → concat chunks ≡ bytes
      → (receive cipher (chunks_of chunks ++ more) b).0 ≡ broken
  unfolding open_received
  receive-replayed laws plain sealed bytes seq chunks more b r x h k d s f n e =
      let fresh = λ (same : nonce seq (not b.is_client) ≡ nonce b.recv_seq (not b.is_client)).
        d (nonce_inj seq b.recv_seq (not b.is_client) (not b.is_client) h k same) in
      ap (λ o. o.0) (receive_sealed b sealed bytes chunks more r x f n e)
      ∙ ap (λ (o : Option (List ℕ)). (opened_as cipher o (record b { rx_buffer = [] })).0)
          (laws.fits_once b.recv_key (nonce seq (not b.is_client))
            (nonce b.recv_seq (not b.is_client)) plain sealed s fresh)
