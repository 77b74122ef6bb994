-- ===== src/Licence.antt =====
-- source/licence.c: the licence exchange. A message is read from the stream that is received, and
-- answered through the security layer.
pub mod Wire
pub mod Strings
pub mod Issue
pub mod Lengths
mod Tests
use rdesktopce_rdp.Prelude.{
  ℕ, zero, suc, ◌+◌, ◌-◌, ◌%◌, ◌^◌, Bool, true, false, ◌||◌, Option, none, some, List, [], ◌∷◌,
  ◌++◌, leb, ◌==◌, if◌then◌else◌, length, take, drop, replicate,
}
use rdesktopce_rdp.Stream
use rdesktopce_rdp.Stream.{
  Stream, in_uint8, in_uint8p, in_uint8s, in_uint16_le, in_uint32_le, out_uint8, out_uint16_le,
  out_uint32_le, out_uint8p, out_uint8s, s_mark_end, s_check_rem, s_check_end,
}
use rdesktopce_rdp.Link.{N, pure, ◌>>=◌, ◌>>◌, on_out, on_in}
use rdesktopce_rdp.Licence.Wire.{
  present_length, out_present, request_length, out_request, out_authresp, in_octets,
  licence_parse_authreq, in_place, in_issue,
}
use rdesktopce_rdp.Secure.{Ssl, Keys, sec_hash_48, sec_hash_16, sec_sign, buf_out_uint32}
use rdesktopce_rdp.Secure.Packet.{sec_init, sec_send}

-- The static variables of the file and its two flags, with what `save_licence` was given.
pub record Licence : Type 0 where
  pub key : List ℕ
  pub sign_key : List ℕ
  pub issued : Bool
  pub error_result : Bool
  pub saved : List (List ℕ)

-- The globals that are read, and what `load_licence` gives, which is empty where there is none. The names
-- are without their NUL.
pub record Holder : Type 0 where
  pub username : List ℕ
  pub hostname : List ℕ
  pub rdp5 : Bool
  pub stored : List ℕ

-- `g_licence_issued || g_licence_error_result`
abbrev pub licensed : Licence → Bool
licensed l = l.issued || l.error_result

-- `strncpy` behind the first four octets fills up with 0.
unfoldable pub licence_generate_hwid : List ℕ → List ℕ
unfolding buf_out_uint32
licence_generate_hwid hostname =
    let name = take 16 hostname in buf_out_uint32 2 ++ (name ++ replicate (16 - length name) 0)

module _ {Rc4 : Type 0} (ssl : Ssl Rc4) where
  unfoldable pub licence_generate_keys : List ℕ → List ℕ → List ℕ → Licence → Licence
  unfolding sec_hash_48 sec_hash_16
  licence_generate_keys client_random server_random pre_master_secret l =
      let master_secret = sec_hash_48 ssl pre_master_secret client_random server_random 65 in
      let key_block = sec_hash_48 ssl master_secret server_random client_random 65 in
      record l {
        sign_key = take 16 key_block;
        key = sec_hash_16 ssl (drop 16 key_block) client_random server_random;
      }

  -- `ssl_rc4_set_key` and `ssl_rc4_crypt` with the licence key.
  unfoldable pub crypt : Licence → List ℕ → List ℕ
  crypt l octets = (ssl.rc4_crypt (ssl.rc4_set_key (take 16 l.key)) octets).0

  -- A message of `len` octets behind its first two, with the flag SEC_LICENCE_NEG.
  unfoldable pub licence_send : Bool → ℕ → ℕ → Stream.M (Unit {0}) → Keys Rc4 → N (Keys Rc4)
  unfolding sec_init sec_send
  licence_send licensed userid len body keys = do
    sec_init licensed 0x80 (len + 2)
    on_out body
    on_out s_mark_end
    sec_send ssl licensed userid 0x80 keys

  unfoldable pub licence_present :
      Holder → Bool → ℕ → List ℕ → List ℕ → List ℕ → Keys Rc4 → N (Keys Rc4)
  unfolding licence_send
  licence_present h licensed userid licence_data hwid signature =
      licence_send licensed userid (present_length licence_data)
        (out_present h.rdp5 licence_data hwid signature)

  unfoldable pub licence_send_request : Holder → Bool → ℕ → Keys Rc4 → N (Keys Rc4)
  unfolding licence_send
  licence_send_request h licensed userid =
      let user = h.username ++ (0 ∷ []) in
      let host = h.hostname ++ (0 ∷ []) in
      licence_send licensed userid (request_length user host) (out_request h.rdp5 user host)

  unfoldable pub licence_send_authresp :
      Holder → Bool → ℕ → List ℕ → List ℕ → List ℕ → Keys Rc4 → N (Keys Rc4)
  unfolding licence_send
  licence_send_authresp h licensed userid token crypt_hwid signature =
      licence_send licensed userid 58 (out_authresp h.rdp5 token crypt_hwid signature)

  unfoldable pub licence_process_demand : Holder → ℕ → Keys Rc4 → Licence → N (Licence × Keys Rc4)
  unfolding licence_generate_keys licence_generate_hwid crypt licence_present licence_send_request
  licence_process_demand h userid keys l = do
    server_random ← on_in (in_octets 32)
    (let l' = licence_generate_keys (replicate 64 0) server_random (replicate 64 0) l in
        let hwid = licence_generate_hwid h.hostname in
        let signature = sec_sign ssl 16 (take 16 l'.sign_key) hwid in
        (if length h.stored == 0
          then licence_send_request h (licensed l') userid keys
          else licence_present h (licensed l') userid h.stored (crypt l' hwid) signature keys)
        >>= λ keys'. pure (l', keys'))

  -- A token that is not there is a NULL pointer that is read.
  unfoldable pub licence_process_authreq : Holder → ℕ → Keys Rc4 → Licence → N (Licence × Keys Rc4)
  unfolding licence_parse_authreq licence_generate_hwid crypt licence_send_authresp
  licence_process_authreq h userid keys l = do
    parsed ← on_in licence_parse_authreq
    elim parsed [
      | none ↦ (λ net. none)
      | some (token, _) ↦
          (let hwid = licence_generate_hwid h.hostname in
            let signature = sec_sign ssl 16 (take 16 l.sign_key) (crypt l token ++ hwid) in
            licence_send_authresp h (licensed l) userid token (crypt l hwid) signature keys
            >>= λ keys'. pure (l, keys'))
    ]

  -- `save_licence` with the octets at `p`.
  unfoldable pub save_licence : Option ℕ → Licence → Stream.M Licence
  unfolding in_octets
  save_licence none l s = some (record l { issued = true }, s)
  save_licence (some n) l s = elim (in_octets n s) [
    | none ↦ none
    | some (octets, _) ↦ some (record l { issued = true; saved = l.saved ++ (octets ∷ []) }, s)
  ]

  -- Behind the decryption.
  unfoldable pub in_granted : Licence → N Licence
  unfolding save_licence
  in_granted l = do
    check ← on_in in_uint16_le
    (if check == 0 then (do last ← on_in in_issue; on_in (save_licence last l)) else pure l)

  unfoldable pub licence_process_issue : Licence → N Licence
  unfolding crypt in_granted
  licence_process_issue l = do
    on_in (in_uint8s 2)
    size ← on_in in_uint16_le
    fits ← on_in (λ s. some (s_check_rem s size, s))
    (if fits then (do on_in (in_place (crypt l) size); in_granted l) else pure l)

  unfoldable pub licence_process : Holder → ℕ → Keys Rc4 → Licence → N (Licence × Keys Rc4)
  unfolding licence_process_demand licence_process_authreq licence_process_issue
  licence_process h userid keys l = do
    tag ← on_in in_uint8
    on_in (in_uint8s 3)
    (if tag == 0x01
        then licence_process_demand h userid keys l
        else if tag == 0x02
        then licence_process_authreq h userid keys l
        else if (tag == 0x03) || (tag == 0x04)
        then (do l' ← licence_process_issue l; pure (l', keys))
        else if tag == 0xff
        then pure (record l { error_result = true }, keys)
        else pure (l, keys))
