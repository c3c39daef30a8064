-- ===== src/Channel/Link.antt =====
-- `Send` and `Receive` (src/common/SecureChannel.cpp), over an authenticated cipher.
pub mod Delivery
use thread_haul_daemon.Base.{
  ℕ, ◌+◌, ◌*◌, ◌%◌, Bool, true, false, not, List, [], ◌∷◌, ◌++◌, Option, none, some, if◌then◌else◌,
}
use thread_haul_daemon.Channel.Bytes.{half, nonce}
use thread_haul_daemon.Channel.Frame.{
  frame_bytes, Arrival, Received, broken, timeout, frame, receive_frame,
}

-- AES-GCM: a key, a nonce and a text give the other text, or `none`.
pub record Cipher : Type 0 where
  pub encrypt : List ℕ → List ℕ → List ℕ → Option (List ℕ)
  pub decrypt : List ℕ → List ℕ → List ℕ → Option (List ℕ)

pub record Channel : Type 0 where
  pub ready : Bool
  pub is_client : Bool
  pub send_key : List ℕ
  pub recv_key : List ℕ
  pub send_seq : ℕ
  pub recv_seq : ℕ
  pub rx_buffer : List ℕ

-- A sequence number has 64 bits.
abbrev pub next_seq : ℕ → ℕ
next_seq n = (n + 1) % (half * half)

module _ (cipher : Cipher) where
  -- The bytes for the socket, `none` where `Send` gives up before it calls the socket.
  unfoldable pub send : List ℕ → Channel → Option (List ℕ) × Channel
  send plain c =
      if not c.ready
      then (none, c)
      else elim (cipher.encrypt c.send_key (nonce c.send_seq c.is_client) plain) [
        | none ↦ (none, c)
        | some sealed ↦ (frame_bytes sealed, record c { send_seq = next_seq c.send_seq })
      ]

  -- What decryption says of the next message.
  abbrev pub opened_as : Option (List ℕ) → Channel → Received × Channel
  opened_as none c = (broken, c)
  opened_as (some plain) c = (frame plain, record c { recv_seq = next_seq c.recv_seq })

  -- A frame that has come is opened as the next one.
  unfoldable pub open_received : Received → Channel → Received × Channel
  open_received broken c = (broken, c)
  open_received timeout c = (timeout, c)
  open_received (frame sealed) c =
      opened_as (cipher.decrypt c.recv_key (nonce c.recv_seq (not c.is_client)) sealed) c

  unfoldable pub receive : List Arrival → Channel → Received × Channel × List Arrival
  unfolding open_received
  receive arrivals c =
      if not c.ready
      then (broken, c, arrivals)
      else let got = receive_frame c.rx_buffer arrivals in
        let opened = open_received got.0 (record c { rx_buffer = got.1 }) in
        (opened.0, opened.1, got.2)
