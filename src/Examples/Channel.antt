-- ===== src/Examples/Channel.antt =====
-- Examples of src/common/SecureChannel.cpp.
use thread_haul_daemon.Base.{
  ℕ, ◌≡◌, ◌≢◌, refl, true, false, List, [], ◌∷◌, ◌++◌, Option, none, some, arith, if◌then◌else◌,
  Bool-cases, ==_iff, ==_self, ◌==◌, subst, ap₂, inl, inr, zero, suc, length, length-append,
  some_inj,
}
use thread_haul_daemon.Channel.Bytes.{be32, nonce}
use thread_haul_daemon.Channel.Frame.{frame_bytes, deadline, chunk, broken, frame, receive_frame}
use thread_haul_daemon.Channel.Frame.Reassembly.{receive_frame-reassembles, receive_frame-overrun}
use thread_haul_daemon.Channel.Link.{Cipher, Channel, send, receive}
use thread_haul_daemon.Channel.Link.Delivery.{
  Opens, FitsOnce, InStep, receive-send, receive-replayed,
}

receive_frame-reassembles_example :
    receive_frame [] (chunk (0 ∷ 0 ∷ []) ∷ chunk (0 ∷ 2 ∷ 7 ∷ []) ∷ chunk (9 ∷ []) ∷ deadline ∷ [])
    ≡ (frame (7 ∷ 9 ∷ []), [], deadline ∷ [])
unfolding frame_bytes be32
receive_frame-reassembles_example =
    receive_frame-reassembles (7 ∷ 9 ∷ []) (0 ∷ 0 ∷ 0 ∷ 2 ∷ 7 ∷ 9 ∷ [])
      ((0 ∷ 0 ∷ []) ∷ (0 ∷ 2 ∷ 7 ∷ []) ∷ (9 ∷ []) ∷ []) (deadline ∷ []) refl
      (λ e. cc, (λ e. cc, (λ e. cc, tt))) refl

-- A cipher that writes the nonce before the text.
abbrev strip : List ℕ → List ℕ → Option (List ℕ)
strip [] text = some text
strip (n ∷ ns) [] = none
strip (n ∷ ns) (t ∷ ts) = if n == t then strip ns ts else none

abbrev unseal : List ℕ → List ℕ → Option (List ℕ)
unseal n [] = none
unseal n (l ∷ text) = if l == length n then strip n text else none

abbrev cipher : Cipher
cipher = record {
  encrypt = λ key n plain. some (length n ∷ n ++ plain);
  decrypt = λ key n sealed. unseal n sealed;
}

strip_same : (n plain : List ℕ) → strip n (n ++ plain) ≡ some plain
strip_same [] plain = refl
strip_same (x ∷ n) plain = rw (==_self x) (strip_same n plain)

strip_other : (n m plain : List ℕ) → length n ≡ length m → n ≢ m → strip m (n ++ plain) ≡ none
strip_other [] [] plain l d = absurd (d refl)
strip_other [] (y ∷ m) plain l d = absurd (omega (arith, l))
strip_other (x ∷ n) [] plain l d = absurd (omega (arith, l))
strip_other (x ∷ n) (y ∷ m) plain l d = elim (Bool-cases (y == x)) [
  | inl e ↦
      let same : x ≡ y = omega (arith, (==_iff y x).0 e) in
      rw e (strip_other n m plain (omega (arith, l)) (λ q. d (ap₂ (λ h t. h ∷ t) same q)))
  | inr e ↦ rw e refl
]

unseal_same : (n plain : List ℕ) → unseal n (length n ∷ n ++ plain) ≡ some plain
unseal_same n plain = rw (==_self (length n)) (strip_same n plain)

unseal_other : (n m plain : List ℕ) → n ≢ m → unseal m (length n ∷ n ++ plain) ≡ none
unseal_other n m plain d = elim (Bool-cases (length n == length m)) [
  | inl e ↦ rw e (strip_other n m plain ((==_iff (length n) (length m)).0 e) d)
  | inr e ↦ rw e refl
]

cipher-Opens : Opens cipher
cipher-Opens = record {
  opens = λ key n plain sealed h.
      subst (λ s. unseal n s ≡ some plain) (some_inj h) (unseal_same n plain);
}

cipher-FitsOnce : FitsOnce cipher
cipher-FitsOnce = record {
  fits_once = λ key n other plain sealed h d.
      subst (λ s. unseal other s ≡ none) (some_inj h) (unseal_other n other plain d);
}

abbrev client : Channel
client = record {
  ready = true;
  is_client = true;
  send_key = 1 ∷ [];
  recv_key = 2 ∷ [];
  send_seq = 3;
  recv_seq = 0;
  rx_buffer = [];
}

abbrev server : Channel
server = record {
  ready = true;
  is_client = false;
  send_key = 2 ∷ [];
  recv_key = 1 ∷ [];
  send_seq = 0;
  recv_seq = 3;
  rx_buffer = [];
}

-- The message 5 under the sequence number 3, in its frame.
abbrev bytes_of : ℕ → List ℕ
bytes_of seq = 0 ∷ 0 ∷ 0 ∷ 14 ∷ 12 ∷ 67 ∷ 0 ∷ 0 ∷ 0 ∷ 0 ∷ 0 ∷ 0 ∷ 0 ∷ 0 ∷ 0 ∷ 0 ∷ seq ∷ 5 ∷ []

sent_bytes : (send cipher (5 ∷ []) client).0 ≡ some (bytes_of 3)
unfolding send frame_bytes be32 nonce
sent_bytes = refl

receive-send_example :
    let o = receive cipher (chunk (bytes_of 3) ∷ []) server in
    (o.0 ≡ frame (5 ∷ [])) × (o.2 ≡ []) × InStep (send cipher (5 ∷ []) client).1 o.1
receive-send_example =
    receive-send cipher cipher-Opens (5 ∷ []) (bytes_of 3) (bytes_of 3 ∷ []) [] client server
      (record {
        sender_ready = refl;
        receiver_ready = refl;
        keys = refl;
        ends = refl;
        numbers = refl;
        clear = refl;
      })
      sent_bytes (λ e. cc, tt) refl

different : ◌≢◌ {A = ℕ} 2 3
different e = absurd (omega (arith, e))

receive-replayed_example : (receive cipher (chunk (bytes_of 2) ∷ []) server).0 ≡ broken
unfolding frame_bytes be32 nonce
receive-replayed_example =
    receive-replayed cipher cipher-FitsOnce (5 ∷ []) (12 ∷ nonce 2 true ++ 5 ∷ []) (bytes_of 2) 2
      (bytes_of 2 ∷ []) [] server refl refl (omega arith) (omega arith) different refl refl
      (λ e. cc, tt) refl

zeros : ℕ → List ℕ
zeros zero = []
zeros (suc n) = 0 ∷ zeros n

length-zeros : (n : ℕ) → length (zeros n) ≡ n
unfolding zeros
length-zeros zero = refl
length-zeros (suc n) = omega (arith, length-zeros n)

-- The header's bytes and all but one of the frame's.
begun : List ℕ
begun = be32 (length (zeros 1048575 ++ (0 ∷ []))) ++ zeros 1048575

receive_frame-overrun_example : (receive_frame begun (chunk (0 ∷ 0 ∷ []) ∷ [])).0 ≡ broken
unfolding begun be32
receive_frame-overrun_example =
    receive_frame-overrun (zeros 1048575 ++ (0 ∷ [])) begun (0 ∷ []) (0 ∷ []) []
      (omega (arith, length-append (zeros 1048575) (0 ∷ []), length-zeros 1048575)) refl (λ e. cc)
      (λ e. cc)
