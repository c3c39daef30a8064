-- ===== src/Channel/Frame.antt =====
-- Length-prefixed frames (`SendFrame` and `ReceiveFrame` in src/common/SecureChannel.cpp). The
-- socket is the sequence of what its calls return.
pub mod Reassembly
use thread_haul_daemon.Base.{
  ℕ, zero, suc, ◌+◌, Bool, true, false, List, [], ◌∷◌, ◌++◌, Option, none, some, ltb, leb, length,
  drop, if◌then◌else◌,
}
use thread_haul_daemon.Channel.Bytes.{be32, read32}

abbrev pub max_frame : ℕ
max_frame = 1048576

-- What goes to the socket for a frame; `none` for one that is too long.
unfoldable pub frame_bytes : List ℕ → Option (List ℕ)
frame_bytes frame =
    if ltb max_frame (length frame) then none else some (be32 (length frame) ++ frame)

-- The first `n` bytes.
unfoldable pub take_bytes : ℕ → List ℕ → List ℕ
take_bytes n [] = []
take_bytes zero (x ∷ xs) = []
take_bytes (suc n) (x ∷ xs) = x ∷ take_bytes n xs

pub data Parsed : Type 0 where
  incomplete too_long : Parsed
  complete : List ℕ → List ℕ → Parsed  -- the frame, and what follows it

-- Look for a frame at the start of the buffer.
unfoldable pub parse_frame : List ℕ → Parsed
unfolding take_bytes read32
parse_frame (a ∷ b ∷ c ∷ d ∷ body) =
    let n = read32 a b c d in
    if ltb max_frame n
    then too_long
    else if leb n (length body)
    then complete (take_bytes n body) (drop n body)
    else incomplete
parse_frame _ = incomplete

-- What one round of waiting ends with: the deadline, an error of `select` or of `recv`, or `recv`
-- returning some bytes, none at all if the peer has closed the connection.
pub data Arrival : Type 0 where
  deadline failure : Arrival
  chunk : List ℕ → Arrival

pub data Received : Type 0 where
  broken timeout : Received
  frame : List ℕ → Received

abbrev pub is_closed : List ℕ → Bool
is_closed [] = true
is_closed (c ∷ cs) = false

-- One pass of the loop, over what the buffer was found to hold, the buffer and what will arrive,
-- with the buffer afterwards and what has not arrived yet.
unfoldable pub receive_parsed : Parsed → List ℕ → List Arrival → Received × List ℕ × List Arrival
receive_parsed too_long buffer arrivals = (broken, buffer, arrivals)
receive_parsed (complete f rest) buffer arrivals = (frame f, rest, arrivals)
receive_parsed incomplete buffer [] = (timeout, buffer, [])
receive_parsed incomplete buffer (deadline ∷ arrivals) = (timeout, buffer, arrivals)
receive_parsed incomplete buffer (failure ∷ arrivals) = (broken, buffer, arrivals)
receive_parsed incomplete buffer (chunk bytes ∷ arrivals) =
    let grown = buffer ++ bytes in
    let next = receive_parsed (parse_frame grown) grown arrivals in
    if is_closed bytes
    then (broken, buffer, arrivals)
    else if ltb (max_frame + 4) (length grown)
    then (broken, grown, arrivals)
    else next

unfoldable pub receive_frame : List ℕ → List Arrival → Received × List ℕ × List Arrival
receive_frame buffer arrivals = receive_parsed (parse_frame buffer) buffer arrivals
