-- ===== src/Secure/Blob.antt =====
-- source/secure.c: the GCC data that goes with the MCS connection, `sec_out_mcs_data`; and
-- `rdp_out_unistr` of source/rdp.c as it is built without iconv.
use rdesktopce_rdp.Prelude.{
  ℕ, ◌+◌, ◌-◌, ◌*◌, ◌/◌, Bool, List, [], ◌∷◌, ◌++◌, ltb, if◌then◌else◌, length, take, bit_or,
}
use rdesktopce_rdp.Stream.{
  M, ◌>>◌, pure, out_uint8, out_uint8p, out_uint8s, out_uint16_be, out_uint16_le, out_uint32_le,
  out_uint32_be, s_mark_end,
}

-- An entry of `g_channels`: its name, of 8 octets, and its flags.
pub record ChannelName : Type 0 where
  pub name : List ℕ
  pub flags : ℕ

-- The globals that the data tells of. `hostname` is without its NUL.
pub record Client : Type 0 where
  pub rdp5 : Bool
  pub console_session : Bool
  pub encryption : Bool
  pub hostname : List ℕ
  pub width : ℕ
  pub height : ℕ
  pub keylayout : ℕ
  pub keyboard_type : ℕ
  pub keyboard_subtype : ℕ
  pub keyboard_functionkeys : ℕ
  pub server_depth : ℕ
  pub channels : List ChannelName

unfoldable pub wide : List ℕ → List ℕ
wide [] = []
wide (c ∷ cs) = c ∷ 0 ∷ wide cs

-- For an even `len`, and a string of at least `len / 2` characters, whose NUL is the last it reads.
unfoldable pub rdp_out_unistr : List ℕ → ℕ → M (Unit {0})
rdp_out_unistr string len = out_uint8p (wide (take ((len + 2) / 2) (string ++ (0 ∷ []))))

unfoldable pub blob_length : Client → ℕ
blob_length c = 254 + (if ltb 0 (length c.channels) then length c.channels * 12 + 8 else 0)

unfoldable pub host_length : Client → ℕ
host_length c = if ltb 30 (2 * length c.hostname) then 30 else 2 * length c.hostname

-- Generic Conference Control (T.124) ConferenceCreateRequest.
unfoldable pub out_conference : Client → M (Unit {0})
unfolding blob_length
out_conference c = do
  out_uint16_be 5
  out_uint16_be 0x14
  out_uint8 0x7c
  out_uint16_be 1
  out_uint16_be (bit_or (blob_length c) 0x8000)
  out_uint16_be 8
  out_uint16_be 16
  out_uint8 0
  out_uint16_le 0xc001
  out_uint8 0
  out_uint32_le 0x61637544
  out_uint16_be (bit_or (blob_length c - 14) 0x8000)

unfoldable pub out_client_info : Client → M (Unit {0})
unfolding rdp_out_unistr host_length
out_client_info c = do
  out_uint16_le 0xc001
  out_uint16_le 216
  out_uint16_le (if c.rdp5 then 4 else 1)
  out_uint16_le 8
  out_uint16_le c.width
  out_uint16_le c.height
  out_uint16_le 0xca01
  out_uint16_le 0xaa03
  out_uint32_le c.keylayout
  out_uint32_le 2600
  rdp_out_unistr c.hostname (host_length c)
  out_uint8s (30 - host_length c)

unfoldable pub out_keyboard : Client → ℕ → M (Unit {0})
out_keyboard c selected_protocol = do
  out_uint32_le c.keyboard_type
  out_uint32_le c.keyboard_subtype
  out_uint32_le c.keyboard_functionkeys
  out_uint8s 64
  out_uint16_le 0xca01
  out_uint16_le 1
  out_uint32_le 0
  out_uint8 c.server_depth
  out_uint16_le 0x0700
  out_uint8 0
  out_uint32_le 1
  out_uint8s 64
  out_uint32_le selected_protocol

unfoldable pub out_settings : Client → M (Unit {0})
out_settings c = do
  out_uint16_le 0xc004
  out_uint16_le 12
  out_uint32_le (if c.console_session then 0xb else 9)
  out_uint32_le 0
  out_uint16_le 0xc002
  out_uint16_le 12
  out_uint32_le (if c.encryption then 0x3 else 0)
  out_uint32_le 0

unfoldable pub out_names : List ChannelName → M (Unit {0})
out_names [] = pure tt
out_names (n ∷ ns) = do out_uint8p (take 8 n.name); out_uint32_be n.flags; out_names ns

unfoldable pub out_channels : List ChannelName → M (Unit {0})
unfolding out_names
out_channels ns =
    if ltb 0 (length ns)
    then (do
      out_uint16_le 0xc003
      out_uint16_le (length ns * 12 + 8)
      out_uint32_le (length ns)
      out_names ns)
    else pure tt

unfoldable pub out_blob : Client → ℕ → M (Unit {0})
unfolding out_conference out_client_info out_keyboard out_settings out_channels
out_blob c selected_protocol = do
  out_conference c
  out_client_info c
  out_keyboard c selected_protocol
  out_settings c
  out_channels c.channels

unfoldable pub sec_out_mcs_data : Client → ℕ → M (Unit {0})
unfolding out_blob
sec_out_mcs_data c selected_protocol = do out_blob c selected_protocol; s_mark_end
