-- ===== src/Licence/Wire.antt =====
-- source/licence.c: the octets of the messages that are sent, and the parts of those that are read.
use rdesktopce_rdp.Prelude.{
  ℕ, zero, suc, ◌+◌, ◌%◌, ◌^◌, Bool, Option, none, some, List, ◌++◌, ◌==◌, if◌then◌else◌, length,
  take, drop, replicate, leb,
}
use rdesktopce_rdp.Stream.{
  M, pure, ◌>>=◌, ◌>>◌, in_uint8p, in_uint8s, in_uint16_le, in_uint32_le, out_uint8, out_uint16_le,
  out_uint32_le, out_uint8p, out_uint8s, s_check_rem,
}

-- The tag, the version and the length of a message.
unfoldable pub out_head : Bool → ℕ → ℕ → M (Unit {0})
out_head rdp5 tag len = do out_uint8 tag; out_uint8 (if rdp5 then 3 else 2); out_uint16_le len

-- A part of a message: its type, its length and its octets.
unfoldable pub out_part : ℕ → List ℕ → M (Unit {0})
out_part type octets = do out_uint16_le type; out_uint16_le (length octets); out_uint8p octets

-- What PRESENT and REQUEST begin with; the client random and the RSA data are 0.
unfoldable pub out_random : ℕ → M (Unit {0})
out_random kind = do
  out_uint32_le 1
  out_uint16_le 0
  out_uint16_le kind
  out_uint8p (replicate 32 0)
  out_uint16_le 2
  out_uint16_le 72
  out_uint8p (replicate 64 0)
  out_uint8s 8

abbrev pub present_length : List ℕ → ℕ
present_length licence_data = (24 + 32 + 64 + 8 + length licence_data + 20 + 16) % 2 ^ 16

unfoldable pub out_present : Bool → List ℕ → List ℕ → List ℕ → M (Unit {0})
unfolding out_head out_random out_part
out_present rdp5 licence_data hwid signature = do
  out_head rdp5 0x12 (present_length licence_data)
  out_random 0x0201
  out_part 1 licence_data
  out_part 1 hwid
  out_uint8p signature

-- The names with their NUL.
abbrev pub request_length : List ℕ → List ℕ → ℕ
request_length user host = (24 + 32 + 64 + 8 + length user + length host) % 2 ^ 16

unfoldable pub out_request : Bool → List ℕ → List ℕ → M (Unit {0})
unfolding out_head out_random out_part
out_request rdp5 user host = do
  out_head rdp5 0x13 (request_length user host)
  out_random 0xff01
  out_part 0x0f user
  out_part 0x10 host

unfoldable pub out_authresp : Bool → List ℕ → List ℕ → List ℕ → M (Unit {0})
unfolding out_head out_part
out_authresp rdp5 token crypt_hwid signature = do
  out_head rdp5 0x15 58
  out_part 1 token
  out_part 1 crypt_hwid
  out_uint8p signature

-- `in_uint8p`, and the `n` octets there; a read behind the buffer is a fault.
unfoldable pub in_octets : ℕ → M (List ℕ)
unfolding in_uint8p
in_octets n = do
  memory ← in_uint8p n
  (if leb n (length memory) then pure (take n memory) else (λ s. none))

-- The token and the signature, or nothing where the length is wrong; whether the packet ends there is
-- not looked at by the caller.
unfoldable pub licence_parse_authreq : M (Option (List ℕ × List ℕ))
unfolding in_octets
licence_parse_authreq = do
  in_uint8s 6
  tokenlen ← in_uint16_le
  (if tokenlen == 10
      then (do token ← in_octets 10; signature ← in_uint8p 16; pure (some (token, signature)))
      else pure none)

-- The octets from `p` on, `n` of them, through a function and back.
unfoldable pub in_place : (List ℕ → List ℕ) → ℕ → M (Unit {0})
in_place f n s =
    if leb (s.p + n) (length s.bytes)
    then some (
      tt,
      record s {
        bytes = take s.p s.bytes ++ (f (take n (drop s.p s.bytes)) ++ drop (s.p + n) s.bytes);
      },
    )
    else none

-- The loop to the fourth string, `n` rounds of it: `size` is `length` before. The last length, if every
-- string is inside the packet.
unfoldable pub in_string : ℕ → ℕ → M (Option ℕ)
unfolding in_uint32_le
in_string zero size = pure (some size)
in_string (suc n) size = do
  in_uint8s size
  next ← in_uint32_le
  fits ← (λ s. some (s_check_rem s next, s))
  (let rest = in_string n next in if fits then rest else pure none)

-- The licence that an issue carries, behind its check, which is 0.
unfoldable pub in_issue : M (Option ℕ)
unfolding in_string
in_issue = do in_uint8s 2; in_string 4 0
