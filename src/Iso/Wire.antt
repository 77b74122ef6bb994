-- ===== src/Iso/Wire.antt =====
-- source/iso.c: the octets of each message, written to and read from a stream.
use rdesktopce_rdp.Prelude.{
  ℕ, ◌+◌, ◌-◌, ◌%◌, ◌^◌, Bool, List, [], ◌∷◌, ◌==◌, if◌then◌else◌, bit_and, some,
}
use rdesktopce_rdp.Stream.{
  M, pure, ◌>>=◌, ◌>>◌, in_uint8, in_uint8s, in_uint16_be, next_be, out_uint8, out_uint8p,
  out_uint16_be, out_uint16_le, out_uint32_le, s_mark_end, pop_iso,
}

unfoldable pub out_msg : ℕ → M (Unit {0})
out_msg code = do
  out_uint8 3
  out_uint8 0
  out_uint16_be 11
  out_uint8 6
  out_uint8 code
  out_uint16_le 0
  out_uint16_le 0
  out_uint8 0
  s_mark_end

-- "Cookie: mstshash="
abbrev pub cookie : List ℕ
cookie =
    67 ∷ 111 ∷ 111 ∷ 107 ∷ 105 ∷ 101 ∷ 58 ∷ 32 ∷ 109 ∷ 115 ∷ 116 ∷ 115 ∷ 104 ∷ 97 ∷ 115 ∷ 104 ∷ 61
    ∷ []

-- RDP_NEG_REQ with PROTOCOL_SSL
unfoldable pub out_negotiation : M (Unit {0})
out_negotiation = do out_uint8 1; out_uint8 0; out_uint16_le 8; out_uint32_le 1

unfoldable pub out_request : Bool → List ℕ → ℕ → M (Unit {0})
unfolding out_negotiation
out_request negotiate username len = do
  out_uint8 3
  out_uint8 0
  out_uint16_be len
  out_uint8 (len - 5)
  out_uint8 0xe0
  out_uint16_le 0
  out_uint16_le 0
  out_uint8 0
  out_uint8p cookie
  out_uint8p username
  out_uint8 0x0d
  out_uint8 0x0a
  (if negotiate then out_negotiation else pure tt)
  s_mark_end

-- `s->end - s->p` as a uint16.
unfoldable pub rest_length : M ℕ
rest_length s = some ((s.end + 2 ^ 16 - s.p % 2 ^ 16) % 2 ^ 16, s)

unfoldable pub out_data : ℕ → M (Unit {0})
out_data len = do
  out_uint8 3
  out_uint8 0
  out_uint16_be len
  out_uint8 2
  out_uint8 0xf0
  out_uint8 0x80

-- `iso_send`, up to `tcp_send`.
unfoldable pub out_header : M (Unit {0})
unfolding rest_length
out_header = do pop_iso; len ← rest_length; out_data len

unfoldable pub in_short : ℕ → ℕ → M (ℕ × ℕ)
in_short version len =
    if bit_and len 0x80 == 0
    then pure (version, len)
    else (do len ← next_be 16 (bit_and len 0xff7f); pure (version, len))

-- `iso_recv_msg`, the version and the length of the packet: TPKT, or the short header of a fast
-- path packet. `length` is a uint16.
unfoldable pub in_header : M (ℕ × ℕ)
unfolding in_short
in_header = do
  version ← in_uint8
  (if version == 3
      then (do in_uint8s 1; len ← in_uint16_be; pure (version, len))
      else (do len ← in_uint8; in_short version len))

-- `iso_recv_msg`, the code of a TPKT packet.
unfoldable pub in_code : M ℕ
in_code = do
  in_uint8s 1
  code ← in_uint8
  if code == 0xf0 then in_uint8s 1 else in_uint8s 5
  pure code
