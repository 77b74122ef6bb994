-- ===== src/Secure/Tests.antt =====
-- Runs of the security layer.
use rdesktopce_rdp.Prelude.{
  ℕ, ◌≡◌, refl, arith, List, [], ◌∷◌, ◌++◌, true, false, some, length, ◌+◌, ◌-◌, ◌^◌, map,
  replicate,
}
use rdesktopce_rdp.Samples.{link, blank, plain_ssl, some_keys}
use rdesktopce_rdp.Stream.{Stream, at, byte, in_uint16_be}
use rdesktopce_rdp.Tcp.{Net, got}
use rdesktopce_rdp.Tcp.Recv.{avail}
use rdesktopce_rdp.Licence.{Holder}
use rdesktopce_rdp.Secure.{Keys, sec_sign, sec_encrypt}
use rdesktopce_rdp.Secure.Receive.{Layers, sec_recv}
use rdesktopce_rdp.Secure.Received.{Arrived, sec_recv-secured}
use rdesktopce_rdp.Iso.Frame.{frame}
use rdesktopce_rdp.Mcs.Data.{sdrq_header}
use rdesktopce_rdp.Secure.Packet.{header_length, sec_send_to_channel}
use rdesktopce_rdp.Secure.Sent.{readied, secured}
use rdesktopce_rdp.Secure.Wire.{Delivered, sec_send_to_channel-Delivered}
use rdesktopce_rdp.Secure.Sync.{Paired, encrypt_all, decrypt_all, sec_decrypt-sec_encrypt}
use rdesktopce_rdp.Secure.Blob.{Client, blob_length, sec_out_mcs_data}
use rdesktopce_rdp.Secure.Length.{none_left, one_more, sec_out_mcs_data-length}

-- Three packets, over the change of the keys at 4096.
abbrev packets : List (List ℕ)
packets = (1 ∷ 2 ∷ []) ∷ (3 ∷ []) ∷ [] ∷ []

sec_decrypt-sec_encrypt_example :
    ((decrypt_all plain_ssl (encrypt_all plain_ssl packets some_keys).0 some_keys).0 ≡ packets)
    × Paired
        (encrypt_all plain_ssl packets some_keys).1
        (decrypt_all plain_ssl (encrypt_all plain_ssl packets some_keys).0 some_keys).1
sec_decrypt-sec_encrypt_example =
    sec_decrypt-sec_encrypt plain_ssl (λ k octets. refl) packets some_keys some_keys
      (record { len = refl; rc4 = refl; key = refl; update_key = refl; count = refl })

abbrev sending : Net
sending = record (link []) {
  g_out =
      record (readied (blank []) (replicate 7 0 ++ replicate 8 0) (replicate 12 0) (42 ∷ 43 ∷ [])
        (0 ∷ [])) { iso_hdr = 0; mcs_hdr = 7 };
}

sec_send_to_channel-Delivered_example :
    Delivered plain_ssl
      (record { md5 = λ _. refl; rc4 = λ _ _. refl })
      sending
      (frame (
        map byte
          (sdrq_header 5 1004 (length (secured plain_ssl true 0x08 (42 ∷ 43 ∷ []) some_keys).0))
        ++ (secured plain_ssl true 0x08 (42 ∷ 43 ∷ []) some_keys).0))
      (secured plain_ssl true 0x08 (42 ∷ 43 ∷ []) some_keys).1
      (sec_send_to_channel plain_ssl true 5 0x08 1004 some_keys sending)
unfolding header_length
sec_send_to_channel-Delivered_example =
    sec_send_to_channel-Delivered plain_ssl (record { md5 = λ _. refl; rc4 = λ _ _. refl }) true 5
      0x08 1004 some_keys sending (blank []) (replicate 7 0) (replicate 8 0) (replicate 12 0)
      (42 ∷ 43 ∷ []) (0 ∷ []) refl refl refl refl (omega arith) tt

-- A client with one channel.
abbrev client : Client
client = record {
  rdp5 = true;
  console_session = false;
  encryption = true;
  hostname = 67 ∷ 69 ∷ [];
  width = 800;
  height = 600;
  keylayout = 0x409;
  keyboard_type = 4;
  keyboard_subtype = 0;
  keyboard_functionkeys = 12;
  server_depth = 16;
  channels = record { name = replicate 8 65; flags = 0xc0a00000 } ∷ [];
}

sec_out_mcs_data-length_example :
    (s' : Stream) × (sec_out_mcs_data client 0 (blank (replicate 512 0)) ≡ some (tt, s'))
    × (s'.end ≡ 9 + blob_length client)
    × (in_uint16_be (at s' s'.bytes 7) ≡ some (2 ^ 15 + (s'.end - 9), at s' s'.bytes 9))
    × (in_uint16_be (at s' s'.bytes 21) ≡ some (2 ^ 15 + (s'.end - 23), at s' s'.bytes 23))
    × (length s'.bytes ≡ length {A = ℕ} (replicate 512 0))
unfolding blob_length
sec_out_mcs_data-length_example =
    sec_out_mcs_data-length client 0 (blank (replicate 512 0)) (one_more (omega arith) none_left)
      refl (omega arith) (omega arith)

-- A client that has a licence, and a server with the same keys.
abbrev layers : Layers ℕ
layers = record {
  keys = some_keys;
  licence = record { key = []; sign_key = []; issued = true; error_result = false; saved = [] };
  channels = [];
  events = [];
}

abbrev nobody : Holder
nobody = record { username = []; hostname = []; rdp5 = true; stored = [] }

abbrev arriving : Net
arriving = link (
    got 3 (
      0 ∷ 0 ∷ 28 ∷ 2 ∷ 0xf0 ∷ 0x80 ∷ 104 ∷ 0 ∷ 5 ∷ 3 ∷ 235 ∷ 0x70 ∷ 14 ∷ 8 ∷ 0 ∷ 0 ∷ 0 ∷ 2 ∷ 2 ∷ 2
      ∷ 2 ∷ 2 ∷ 2 ∷ 2 ∷ 2 ∷ 42 ∷ 43 ∷ [])
    ∷ [])

sec_recv-secured_example :
    (keys' : Keys ℕ) × Paired (secured plain_ssl true 0x08 (42 ∷ 43 ∷ []) some_keys).1 keys'
    × Arrived layers keys'
        (42 ∷ 43 ∷ [])
        []
        (sec_recv plain_ssl nobody (λ id octets. 0) 7 1 true layers arriving)
unfolding avail secured sec_sign sec_encrypt
sec_recv-secured_example =
    sec_recv-secured plain_ssl (λ k octets. refl) (record { md5 = λ _. refl; rc4 = λ _ _. refl })
      nobody (λ id octets. 0) 7 0x08 (omega arith) refl refl refl 0 true 5 layers some_keys arriving
      (42 ∷ 43 ∷ []) []
      (record { len = refl; rc4 = refl; key = refl; update_key = refl; count = refl }) (omega arith)
      refl
