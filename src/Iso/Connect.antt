-- ===== src/Iso/Connect.antt =====
-- source/iso.c: `iso_connect`, with its negotiation and its retries. Of source/mcs.c the operations that only
-- call this layer.
use rdesktopce_rdp.Prelude.{
  ℕ, Bool, true, false, Option, none, some, List, [], ◌∷◌, ◌==◌, ◌&&◌, not, if◌then◌else◌,
  replicate,
}
use rdesktopce_rdp.Stream
use rdesktopce_rdp.Stream.{Stream, in_uint8, in_uint16_le, in_uint32_le, s_check_rem}
use rdesktopce_rdp.Tcp.{Net, Incoming, Outgoing, tcp_disconnect, tcp_reset_state}
use rdesktopce_rdp.Link.{N, pure, ◌>>=◌, ◌>>◌, on_in}
use rdesktopce_rdp.Iso.{iso_send_msg, iso_send_connection_request, iso_recv_msg, iso_disconnect}

-- What becomes of one call of `tcp_connect` that succeeds: the outcomes of the new socket, and
-- whether `tcp_tls_connect` succeeds on it.
pub record Attempt : Type 0 where
  pub incoming : List Incoming
  pub outgoing : List Outgoing
  pub tls : Bool

-- How an attempt ends: `return False` with the socket left open or closed, `goto retry`, or
-- success with a protocol.
pub data Verdict : Type 0 where
  lost refused retry : Verdict
  selected : ℕ → Verdict

-- `tcp_connect` makes new buffers of 4096 octets.
abbrev pub opened : Attempt → Net → Net
opened a net = record net {
  incoming = a.incoming;
  outgoing = a.outgoing;
  connected = true;
  g_in = record net.g_in { bytes = replicate 4096 0 };
  g_out = record net.g_out { bytes = replicate 4096 0 };
}

unfoldable pub close : N (Unit {0})
close net = some (tt, tcp_disconnect net)

-- The response to RDP_NEG_REQ: its type and its data.
unfoldable pub in_response : Stream.M (ℕ × ℕ)
in_response = Stream.◌>>=◌ in_uint8 λ type. Stream.◌>>=◌ in_uint8 λ flags.
    Stream.◌>>=◌ in_uint16_le λ len. Stream.◌>>=◌ in_uint32_le λ value. Stream.pure (type, value)

abbrev pub has_response : N Bool
has_response net = some (s_check_rem net.g_in 8, net)

-- RDP_NEG_RSP is 2, PROTOCOL_RDP is 0 and PROTOCOL_SSL is 1. RDP_NEG_FAILURE is another type, and
-- is retried like the rest.
unfoldable pub negotiated : Bool → ℕ × ℕ → N Verdict
unfolding close
negotiated tls (type, value) =
    if not (type == 2)
    then (do close; pure retry)
    else if value == 1
    then (if tls then pure (selected 1) else (do close; pure retry))
    else if value == 0
    then pure (selected 0)
    else (do close; pure refused)

-- From the reply on: NULL; not ISO_PDU_CC; or a confirmation, with a response or without.
unfoldable pub replied : Bool → Bool → Option (ℕ × ℕ) → N Verdict
unfolding negotiated close in_response
replied rdp5 tls none = pure lost
replied rdp5 tls (some (code, version)) =
    if not (code == 0xd0) then (do close; pure refused) else do
      there ← has_response
      (if rdp5 && there
          then (do response ← on_in in_response; negotiated tls response)
          else pure (selected 0))

-- One round behind `tcp_connect`.
unfoldable pub attempt : Bool → Bool → Bool → List ℕ → Bool → N Verdict
unfolding replied
attempt rdp5 negotiate reconnect username tls = do
  (if reconnect
      then iso_send_msg 0xe0
      else iso_send_connection_request (rdp5 && negotiate) username)
  msg ← iso_recv_msg 0
  replied rdp5 tls msg

-- What `iso_connect` gives: its result, `*selected_protocol`, and `g_encryption`.
pub record Connected : Type 0 where
  pub result : Bool
  pub selected_protocol : ℕ
  pub encryption : Bool

abbrev pub not_connected : Bool → Connected
not_connected encryption = record { result = false; selected_protocol = 0; encryption = encryption }

-- What follows on a round; `g_encryption` is turned off with TLS.
unfoldable pub decided :
    Bool → (Net → Option (Connected × Net)) → Option (Verdict × Net) → Option (Connected × Net)
decided encryption again none = none
decided encryption again (some (lost, net)) = some (not_connected encryption, net)
decided encryption again (some (refused, net)) = some (not_connected encryption, net)
decided encryption again (some (retry, net)) = again net
decided encryption again (some (selected protocol, net)) = some (
  record {
    result = true;
    selected_protocol = protocol;
    encryption = encryption && not (protocol == 1);
  },
  net,
)

-- The rounds, one for each call of `tcp_connect`; after the last of the list that fails.
-- A round that is not the first does not negotiate.
unfoldable pub connect_loop :
    Bool → Bool → List ℕ → Bool → Bool → List (Option Attempt) → Net → Option (Connected × Net)
unfolding attempt decided
connect_loop rdp5 reconnect username encryption negotiate [] net =
    some (not_connected encryption, net)
connect_loop rdp5 reconnect username encryption negotiate (none ∷ tries) net =
    some (not_connected encryption, net)
connect_loop rdp5 reconnect username encryption negotiate (some a ∷ tries) net =
    let again = λ (net' : Net). connect_loop rdp5 reconnect username encryption false tries net' in
    decided encryption again (attempt rdp5 negotiate reconnect username a.tls (opened a net))

unfoldable pub iso_connect :
    Bool → Bool → List ℕ → Bool → List (Option Attempt) → Net → Option (Connected × Net)
unfolding connect_loop
iso_connect rdp5 reconnect username encryption tries net =
    connect_loop rdp5 reconnect username encryption true tries net

unfoldable pub mcs_connect_start :
    Bool → Bool → List ℕ → Bool → List (Option Attempt) → Net → Option (Connected × Net)
unfolding iso_connect
mcs_connect_start rdp5 reconnect username encryption tries net =
    iso_connect rdp5 reconnect username encryption tries net

unfoldable pub mcs_disconnect : N (Unit {0})
unfolding iso_disconnect
mcs_disconnect = iso_disconnect

unfoldable pub iso_reset_state : N (Unit {0})
unfolding tcp_reset_state
iso_reset_state net = some (tt, tcp_reset_state net)

-- The new `g_mcs_userid`.
unfoldable pub mcs_reset_state : N ℕ
unfolding iso_reset_state
mcs_reset_state = do iso_reset_state; pure 0
