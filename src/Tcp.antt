-- ===== src/Tcp.antt =====
-- source/tcp.c: the transport. What the socket and OpenSSL do on each call is the list of outcomes
-- that the state carries; `recv` and `SSL_read`, and `send` and `SSL_write`, are handled alike.
pub mod Recv
pub mod Send
mod Tests
use rdesktopce_rdp.Prelude.{
  ℕ, zero, suc, ◌+◌, ◌-◌, Bool, true, false, Option, none, some, List, [], ◌∷◌, ◌++◌, ltb, leb,
  ◌==◌, if◌then◌else◌, length, take, drop, replicate,
}
use rdesktopce_rdp.Stream.{Stream, at, out_uint8p}

-- One round of the receive loop. `got` is a call that returns octets, at least one; `again` is
-- TCP_BLOCKS or SSL_ERROR_WANT_*; `broken` is any other error; `closed` is a return of 0; `quit` is
-- a failing `ui_select`.
pub data Incoming : Type 0 where
  got : ℕ → List ℕ → Incoming
  again broken closed quit : Incoming

-- One round of the send loop. `took n` is a call that may send n + 1 octets.
pub data Outgoing : Type 0 where
  took : ℕ → Outgoing
  busy failed : Outgoing

-- `wire` is all that the socket has taken, oldest first; `connected` is false once it is closed.
pub record Net : Type 0 where
  pub g_in : Stream
  pub g_out : Stream
  pub incoming : List Incoming
  pub outgoing : List Outgoing
  pub wire : List ℕ
  pub connected : Bool

-- xrealloc to a larger size. The new octets are read by nobody before they are written.
unfoldable pub grow : ℕ → List ℕ → List ℕ
grow n d = d ++ replicate (n - length d) 0

unfoldable pub tcp_init : ℕ → Net → Net
unfolding grow
tcp_init maxlen net =
    let d = grow maxlen net.g_out.bytes in
    record net { g_out = record net.g_out { bytes = d; p = 0; end = length d } }

-- The octets of a chunk land at `s->end`. None lands outside the buffer.
pub land : List ℕ → Stream → Option Stream
land bs s = elim (out_uint8p bs (at s s.bytes s.end)) [
  | none ↦ none
  | some (_, t) ↦ some (record s { bytes = t.bytes; end = t.p })
]

-- A call returns at most `length` octets; what a chunk has beyond them is left for the next call.
pub leftover : List ℕ → List Incoming → List Incoming
leftover [] es = es
leftover (b ∷ bs) es = got b bs ∷ es

abbrev pub Received : Type 0
Received = Option (Bool × List Incoming × Stream)

-- `while (length > 0)`. After the last outcome the peer closes the connection.
pub recv_loop : List Incoming → ℕ → Stream → Received
unfolding leftover land
recv_loop es zero s = some (true, es, s)
recv_loop [] (suc n) s = some (false, [], s)
recv_loop (got b bs ∷ es) (suc n) s =
    let rest = λ (t : Stream). recv_loop es (suc n - length (b ∷ bs)) t in
    elim (land (take (suc n) (b ∷ bs)) s) [
      | none ↦ none
      | some t ↦
          if leb (length (b ∷ bs)) (suc n)
          then rest t
          else some (true, leftover (drop (suc n) (b ∷ bs)) es, t)
    ]
recv_loop (again ∷ es) (suc n) s = recv_loop es (suc n) s
recv_loop (broken ∷ es) (suc n) s = some (false, es, s)
recv_loop (closed ∷ es) (suc n) s = some (false, es, s)
recv_loop (quit ∷ es) (suc n) s = some (false, es, s)

abbrev pub with_received : Net → Received → Option (Bool × Net)
with_received net none = none
with_received net (some (done, es, s)) = some (done, record net { g_in = s; incoming = es })

-- `tcp_recv(NULL, length)`: read into a new stream. `true` is the stream, `false` is NULL.
unfoldable pub tcp_recv_new : ℕ → Net → Option (Bool × Net)
unfolding grow recv_loop
tcp_recv_new n net =
    let s = net.g_in in
    with_received net
      (recv_loop net.incoming n (record s { bytes = grow n s.bytes; p = 0; end = 0 }))

-- `tcp_recv(s, length)`: append to the stream.
unfoldable pub tcp_recv : ℕ → Net → Option (Bool × Net)
unfolding grow recv_loop
tcp_recv n net =
    let s = net.g_in in
    with_received net (recv_loop net.incoming n (record s { bytes = grow (s.end + n) s.bytes }))

-- `while (total < length)` over the octets that are left; after the last outcome the socket takes
-- all. `true` is the loop's end, `false` its return on an error.
pub send_loop : List Outgoing → List ℕ → List ℕ → Bool × List Outgoing × List ℕ
send_loop es [] wire = (true, es, wire)
send_loop [] (b ∷ bs) wire = (true, [], wire ++ (b ∷ bs))
send_loop (took n ∷ es) (b ∷ bs) wire =
    send_loop es (drop (suc n) (b ∷ bs)) (wire ++ take (suc n) (b ∷ bs))
send_loop (busy ∷ es) (b ∷ bs) wire = send_loop es (b ∷ bs) wire
send_loop (failed ∷ es) (b ∷ bs) wire = (false, es, wire)

-- The octets from `data` to `end` go out; an error is reported and otherwise ignored.
unfoldable pub tcp_send : Net → Net
unfolding send_loop
tcp_send net =
    let (_, es, w) = send_loop net.outgoing (take net.g_out.end net.g_out.bytes) net.wire in
    record net { outgoing = es; wire = w }

unfoldable pub tcp_disconnect : Net → Net
tcp_disconnect net = record net { connected = false }

-- `g_sock` is forgotten, and both streams are as before the first connection.
unfoldable pub tcp_reset_state : Net → Net
tcp_reset_state net =
    let empty : Stream = record {
      bytes = [];
      p = 0;
      end = 0;
      iso_hdr = 0;
      mcs_hdr = 0;
      sec_hdr = 0;
      rdp_hdr = 0;
      channel_hdr = 0;
    } in
    record net { g_in = empty; g_out = empty; connected = false }
