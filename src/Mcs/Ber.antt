-- ===== src/Mcs/Ber.antt =====
-- source/mcs.c: ASN.1 BER headers.
pub mod RoundTrip
use rdesktopce_rdp.Prelude.{
  ℕ, zero, suc, ◌+◌, ◌-◌, ◌*◌, ◌/◌, ◌%◌, ◌^◌, Bool, true, false, Option, none, some, List, [], ◌∷◌,
  ltb, leb, ◌==◌, if◌then◌else◌, bit_and,
}
use rdesktopce_rdp.Stream.{
  Stream, M, pure, ◌>>=◌, ◌>>◌, in_uint8, in_uint8s, in_uint16_be, next_be, out_uint8,
  out_uint16_be, s_check,
}

-- `while (len--) next_be(s, *length)` into a 32-bit int.
unfoldable pub ber_length : ℕ → ℕ → M ℕ
ber_length zero v = pure v
ber_length (suc n) v = do v' ← next_be 32 v; ber_length n v'

unfoldable pub check : M Bool
unfolding s_check
check s = some (s_check s, s)

unfoldable pub in_tag : ℕ → M ℕ
in_tag tagval = if ltb 0xff tagval then in_uint16_be else in_uint8

unfoldable pub in_length : M ℕ
unfolding ber_length
in_length = do
  len ← in_uint8
  if bit_and len 0x80 == 0 then pure len else ber_length (bit_and len 0xffffff7f) 0

-- `*length` is a variable of the caller: `none` while nothing has been assigned to it.
unfoldable pub ber_parse_header : ℕ → Option ℕ → M (Bool × Option ℕ)
unfolding in_length check in_tag
ber_parse_header tagval length = do
  tag ← in_tag tagval
  (if tag == tagval
      then (do length' ← in_length; ok ← check; pure (ok, some length'))
      else pure (false, length))

-- `in_uint8s(s, length)` for a signed 32-bit `length`. A step in front of the buffer, or by a
-- variable that was never assigned, is a fault.
unfoldable pub skip : Option ℕ → M (Unit {0})
skip none s = none
skip (some n) s =
    if ltb n (2 ^ 31)
    then in_uint8s n s
    else if leb (2 ^ 32 - n) s.p
    then some (tt, record s { p = s.p - (2 ^ 32 - n) })
    else none

unfoldable pub ber_out_header : ℕ → ℕ → M (Unit {0})
ber_out_header tagval length = do
  (if ltb 0xff tagval then out_uint16_be tagval else out_uint8 tagval)
  (if leb 0x80 length then (do out_uint8 0x82; out_uint16_be length) else out_uint8 length)

unfoldable pub ber_out_integer : ℕ → M (Unit {0})
unfolding ber_out_header
ber_out_integer value = do ber_out_header 2 2; out_uint16_be value
