-- ===== src/Mcs.antt =====
-- source/mcs.c: the multipoint communication service over ISO.
pub mod Ber
pub mod Pdu
pub mod Bodies
pub mod Initial
pub mod Connect
pub mod Join
pub mod Data
mod Tests
use Pdu.{
  out_connect_initial, in_connect_response, out_edrq, out_aurq, in_aucf, out_cjrq, in_cjcf,
  sdrq_length, out_sdrq, in_sdin, initial_length,
}
use rdesktopce_rdp.Prelude.{
  ℕ, ◌+◌, ◌%◌, ◌^◌, Bool, true, false, Option, none, some, List, [], ◌∷◌, ◌==◌, ◌&&◌, not,
  if◌then◌else◌,
}
use rdesktopce_rdp.Stream
use rdesktopce_rdp.Stream.{s_mark_end, push_mcs, pop_mcs}
use rdesktopce_rdp.Link.{N, pure, ◌>>=◌, ◌>>◌, on_out, on_in}
use rdesktopce_rdp.Iso.{iso_init, iso_send, iso_recv, iso_disconnect}

-- MCS_GLOBAL_CHANNEL and MCS_USERCHANNEL_BASE.
abbrev pub global_channel : ℕ
global_channel = 1003

abbrev pub userchannel_base : ℕ
userchannel_base = 1001

unfoldable pub mcs_send_connect_initial : List ℕ → N (Unit {0})
mcs_send_connect_initial mcs_data = do
  iso_init (initial_length mcs_data + 5)
  on_out (out_connect_initial mcs_data)
  on_out s_mark_end
  iso_send

-- `iso_recv(NULL)`, and the reader of the reply unless that is NULL.
unfoldable pub answer : {A : Type 0} → A → Stream.M A → Option ℕ → N A
answer failed reply none = pure failed
answer failed reply (some _) = on_in reply

unfoldable pub expect : {A : Type 0} → A → Stream.M A → N A
unfolding answer
expect failed reply = do msg ← iso_recv false; answer failed reply msg

unfoldable pub mcs_recv_connect_response : Stream.M (Unit {0}) → N Bool
unfolding expect
mcs_recv_connect_response sec_process_mcs_data =
    expect false (in_connect_response sec_process_mcs_data)

unfoldable pub mcs_send_edrq : N (Unit {0})
mcs_send_edrq = do iso_init 5; on_out out_edrq; on_out s_mark_end; iso_send

unfoldable pub mcs_send_aurq : N (Unit {0})
mcs_send_aurq = do iso_init 1; on_out out_aurq; on_out s_mark_end; iso_send

unfoldable pub mcs_recv_aucf : ℕ → N (Bool × ℕ)
unfolding expect
mcs_recv_aucf userid = expect (false, userid) (in_aucf userid)

-- `chanid` is a uint16.
unfoldable pub mcs_send_cjrq : ℕ → ℕ → N (Unit {0})
mcs_send_cjrq userid chanid = do
  iso_init 5
  on_out (out_cjrq userid (chanid % 2 ^ 16))
  on_out s_mark_end
  iso_send

unfoldable pub mcs_recv_cjcf : N Bool
unfolding expect
mcs_recv_cjcf = expect false in_cjcf

unfoldable pub mcs_init : ℕ → N (Unit {0})
mcs_init n = do iso_init (n + 8); on_out (push_mcs 8)

unfoldable pub mcs_send_to_channel : ℕ → ℕ → N (Unit {0})
mcs_send_to_channel userid channel = do
  on_out pop_mcs
  len ← on_out sdrq_length
  on_out (out_sdrq userid channel len)
  iso_send

unfoldable pub mcs_send : ℕ → N (Unit {0})
unfolding mcs_send_to_channel
mcs_send userid = mcs_send_to_channel userid global_channel

-- What the caller gets: NULL; a packet that is not TPKT, as it is; or the data of a channel.
pub data Received : Type 0 where
  null : Received
  fast_path : ℕ → Received
  channel_data : ℕ → Received

unfoldable pub indication : Option ℕ → Received
indication none = null
indication (some channel) = channel_data channel

unfoldable pub process_packet : Bool → Option ℕ → N Received
unfolding indication
process_packet with_rdpver none = pure null
process_packet with_rdpver (some version) =
    if with_rdpver && not (version == 3)
    then pure (fast_path version)
    else (do channel ← on_in in_sdin; pure (indication channel))

unfoldable pub mcs_recv : Bool → N Received
unfolding process_packet
mcs_recv with_rdpver = do msg ← iso_recv with_rdpver; process_packet with_rdpver msg

-- One channel is asked for, and its confirmation awaited.
unfoldable pub join : ℕ → ℕ → N Bool
unfolding mcs_send_cjrq mcs_recv_cjcf
join userid chanid = do mcs_send_cjrq userid chanid; mcs_recv_cjcf

-- The loop over the virtual channels; it stops at the first that is refused.
unfoldable pub join_all : ℕ → List ℕ → N Bool
unfolding join
join_all userid [] = pure true
join_all userid (c ∷ cs) = do ok ← join userid c; if ok then join_all userid cs else pure false

-- `goto error` disconnects and fails.
abbrev pub or_error : {A : Type 0} → A → Bool → N A → N A
or_error failed true k = k
or_error failed false k = do iso_disconnect; pure failed

-- `g_mcs_userid` is passed on; `channels` are the ids of `g_channels`.
unfoldable pub mcs_connect_finalize : Stream.M (Unit {0}) → List ℕ → List ℕ → ℕ → N (Bool × ℕ)
unfolding join_all mcs_send_connect_initial mcs_recv_connect_response mcs_send_edrq mcs_send_aurq
    mcs_recv_aucf
mcs_connect_finalize sec_process_mcs_data mcs_data channels userid₀ = do
  mcs_send_connect_initial mcs_data
  ok ← mcs_recv_connect_response sec_process_mcs_data
  or_error (false, userid₀) ok
      (do
        mcs_send_edrq
        mcs_send_aurq
        (ok, userid) ← mcs_recv_aucf userid₀
        or_error (false, userid) ok
            (do
              ok ← join userid (userid + userchannel_base)
              or_error (false, userid) ok
                  (do
                    ok ← join userid global_channel
                    or_error (false, userid) ok
                        (do
                          ok ← join_all userid channels
                          or_error (false, userid) ok (pure (true, userid))))))
