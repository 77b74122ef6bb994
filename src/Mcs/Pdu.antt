-- ===== src/Mcs/Pdu.antt =====
-- source/mcs.c: the bodies of the PDUs, written to and read from a stream.
use rdesktopce_rdp.Prelude.{
  ℕ, ◌+◌, ◌-◌, ◌*◌, ◌/◌, ◌%◌, ◌^◌, Bool, false, Option, none, some, List, ◌==◌, not, if◌then◌else◌,
  length, bit_and, bit_or,
}
use rdesktopce_rdp.Stream.{
  M, pure, ◌>>=◌, ◌>>◌, in_uint8, in_uint8s, in_uint16_be, out_uint8, out_uint8p, out_uint16_be,
  s_check_end,
}
use rdesktopce_rdp.Mcs.Ber.{ber_parse_header, ber_out_header, ber_out_integer, skip, check}

unfoldable pub check_end : M Bool
unfolding s_check_end
check_end s = some (s_check_end s, s)

unfoldable pub mcs_out_domain_params : ℕ → ℕ → ℕ → ℕ → M (Unit {0})
unfolding ber_out_header ber_out_integer
mcs_out_domain_params max_channels max_users max_tokens max_pdusize = do
  ber_out_header 0x30 32
  ber_out_integer max_channels
  ber_out_integer max_users
  ber_out_integer max_tokens
  ber_out_integer 1
  ber_out_integer 0
  ber_out_integer 1
  ber_out_integer max_pdusize
  ber_out_integer 2

unfoldable pub mcs_parse_domain_params : M Bool
unfolding ber_parse_header skip check
mcs_parse_domain_params = do (_, length) ← ber_parse_header 0x30 none; skip length; check

-- `length` of MCS_CONNECT_INITIAL.
abbrev pub initial_length : List ℕ → ℕ
initial_length bs = 9 + 3 * 34 + 4 + length bs

unfoldable pub out_connect_initial : List ℕ → M (Unit {0})
unfolding mcs_out_domain_params
out_connect_initial bs = do
  ber_out_header 0x7f65 (initial_length bs)
  ber_out_header 4 1
  out_uint8 1
  ber_out_header 4 1
  out_uint8 1
  ber_out_header 1 1
  out_uint8 0xff
  mcs_out_domain_params 34 2 0 0xffff
  mcs_out_domain_params 1 1 1 0x420
  mcs_out_domain_params 0xffff 0xfc17 0xffff 0xffff
  ber_out_header 4 (length bs)
  out_uint8p bs

-- The reply. What stands in `length` when a header is refused is what the header before left there.
-- `sec_process_mcs_data` is of source/secure.c.
unfoldable pub in_connect_response : M (Unit {0}) → M Bool
unfolding ber_parse_header skip mcs_parse_domain_params check_end
in_connect_response sec_process_mcs_data = do
  (_, length) ← ber_parse_header 0x7f66 none
  (_, length) ← ber_parse_header 10 length
  result ← in_uint8
  (if not (result == 0) then pure false else (do
    (_, length) ← ber_parse_header 2 length
    skip length
    _ ← mcs_parse_domain_params
    (_, _) ← ber_parse_header 4 length
    sec_process_mcs_data
    check_end))

unfoldable pub out_edrq : M (Unit {0})
out_edrq = do out_uint8 (1 * 4); out_uint16_be 1; out_uint16_be 1

unfoldable pub out_aurq : M (Unit {0})
out_aurq = out_uint8 (10 * 4)

-- `*mcs_userid` keeps its value where the reply does not carry one.
unfoldable pub in_aucf : ℕ → M (Bool × ℕ)
unfolding check_end
in_aucf userid = do
  opcode ← in_uint8
  (if not (opcode / 4 == 11) then pure (false, userid) else (do
    result ← in_uint8
    (if not (result == 0) then pure (false, userid) else (do
      userid' ← (if bit_and opcode 2 == 0 then pure userid else in_uint16_be)
      ok ← check_end
      pure (ok, userid')))))

unfoldable pub out_cjrq : ℕ → ℕ → M (Unit {0})
out_cjrq userid chanid = do out_uint8 (14 * 4); out_uint16_be userid; out_uint16_be chanid

unfoldable pub in_cjcf : M Bool
unfolding check_end
in_cjcf = do
  opcode ← in_uint8
  (if not (opcode / 4 == 15) then pure false else (do
    result ← in_uint8
    (if not (result == 0) then pure false else (do
      in_uint8s 4
      (if bit_and opcode 2 == 0 then pure tt else in_uint8s 2)
      check_end))))

-- `s->end - s->p - 8` as a uint16, with the top bit set.
unfoldable pub sdrq_length : M ℕ
sdrq_length s = some (bit_or ((s.end + 2 ^ 16 - (s.p + 8) % 2 ^ 16) % 2 ^ 16) 0x8000, s)

unfoldable pub out_sdrq : ℕ → ℕ → ℕ → M (Unit {0})
out_sdrq userid channel len = do
  out_uint8 (25 * 4)
  out_uint16_be userid
  out_uint16_be channel
  out_uint8 0x70
  out_uint16_be len

-- `none` is NULL: not a data indication. Otherwise the channel.
unfoldable pub in_sdin : M (Option ℕ)
in_sdin = do
  opcode ← in_uint8
  (if not (opcode / 4 == 26) then pure none else (do
    in_uint8s 2
    channel ← in_uint16_be
    in_uint8s 1
    len ← in_uint8
    (if bit_and len 0x80 == 0 then pure tt else in_uint8s 1)
    pure (some channel)))
