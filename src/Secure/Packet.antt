-- ===== src/Secure/Packet.antt =====
-- source/secure.c: the security header around a packet, signed and encrypted on demand.
use rdesktopce_rdp.Prelude.{
  ℕ, ◌+◌, ◌-◌, Bool, none, some, List, ◌++◌, ◌==◌, ◌&&◌, not, if◌then◌else◌, length, take, drop,
  leb, bit_and,
}
use rdesktopce_rdp.Stream
use rdesktopce_rdp.Stream.{
  Stream, push_sec, pop_sec, out_uint32_le, out_uint8p, out_uint8s, s_mark_end,
}
use rdesktopce_rdp.Link.{N, pure, ◌>>=◌, ◌>>◌, on_out}
use rdesktopce_rdp.Mcs.{mcs_init, mcs_send_to_channel, global_channel}
use rdesktopce_rdp.Secure.{Ssl, Keys, sec_sign, sec_encrypt}

-- `flags & SEC_ENCRYPT`
abbrev pub encrypts : ℕ → Bool
encrypts flags = not (bit_and flags 0x08 == 0)

-- `licensed` is `g_licence_issued || g_licence_error_result`.
unfoldable pub header_length : Bool → ℕ → ℕ
header_length licensed flags = if encrypts flags then 12 else if licensed then 0 else 4

unfoldable pub sec_init : Bool → ℕ → ℕ → N (Unit {0})
unfolding header_length
sec_init licensed flags maxlen = do
  mcs_init (maxlen + header_length licensed flags)
  on_out (push_sec (header_length licensed flags))

module _ {Rc4 : Type 0} (ssl : Ssl Rc4) where
  -- The signature at `p`, and the data behind it encrypted in place. `p` stays.
  unfoldable pub protect : Keys Rc4 → Stream.M (Keys Rc4)
  unfolding sec_sign sec_encrypt
  protect keys s =
      let octets = take (s.end - s.p - 8) (drop (s.p + 8) s.bytes) in
      let signature = sec_sign ssl 8 (take keys.rc4_key_len keys.sign_key) octets in
      let (crypted, keys') = sec_encrypt ssl octets keys in
      if leb (s.p + 8) s.end && leb s.end (length s.bytes)
      then some (
        keys',
        record s { bytes = take s.p s.bytes ++ (signature ++ (crypted ++ drop s.end s.bytes)) },
      )
      else none

  -- The header is popped; its flags are there unless nothing needs them.
  unfoldable pub sec_header : Bool → ℕ → Keys Rc4 → Stream.M (Keys Rc4)
  unfolding protect
  sec_header licensed flags keys = Stream.◌>>◌ pop_sec (
      Stream.◌>>◌
        (if not licensed
          then out_uint32_le flags
          else if encrypts flags
          then out_uint32_le flags
          else Stream.pure tt)
        (if encrypts flags then protect keys else Stream.pure keys))

  unfoldable pub sec_send_to_channel : Bool → ℕ → ℕ → ℕ → Keys Rc4 → N (Keys Rc4)
  unfolding sec_header
  sec_send_to_channel licensed userid flags channel keys = do
    keys' ← on_out (sec_header licensed flags keys)
    mcs_send_to_channel userid channel
    pure keys'

  unfoldable pub sec_send : Bool → ℕ → ℕ → Keys Rc4 → N (Keys Rc4)
  unfolding sec_send_to_channel
  sec_send licensed userid flags keys =
      sec_send_to_channel licensed userid flags global_channel keys

  -- `crypted` is `g_sec_crypted_random` up to `g_server_public_key_len`.
  unfoldable pub sec_establish_key : Bool → ℕ → List ℕ → Keys Rc4 → N (Keys Rc4)
  unfolding sec_init sec_send
  sec_establish_key licensed userid crypted keys = do
    sec_init licensed 0x01 (length crypted + 8 + 4)
    on_out (out_uint32_le (length crypted + 8))
    on_out (out_uint8p crypted)
    on_out (out_uint8s 8)
    on_out s_mark_end
    sec_send licensed userid 0x01 keys
