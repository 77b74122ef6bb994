-- ===== src/Samples.antt =====
-- Data for the runs of the Tests modules.
use rdesktopce_rdp.Prelude.{ℕ, true, List, [], ◌∷◌, replicate}
use rdesktopce_rdp.Stream.{Stream}
use rdesktopce_rdp.Tcp.{Net, Incoming, took, busy}
use rdesktopce_rdp.Secure.{Ssl, Keys}

abbrev pub blank : List ℕ → Stream
blank octets = record {
  bytes = octets;
  p = 0;
  end = 0;
  iso_hdr = 0;
  mcs_hdr = 0;
  sec_hdr = 0;
  rdp_hdr = 0;
  channel_hdr = 0;
}

-- A connection whose socket takes two octets first.
abbrev pub link : List Incoming → Net
link es = record {
  g_in = blank (replicate 8 0);
  g_out = blank (replicate 64 0);
  incoming = es;
  outgoing = busy ∷ took 1 ∷ [];
  wire = [];
  connected = true;
}

-- Hashes and a cipher of the right sizes: the cipher adds nothing.
abbrev pub plain_ssl : Ssl ℕ
plain_ssl = record {
  sha1 = λ _. replicate 20 1;
  md5 = λ _. replicate 16 2;
  rc4_set_key = λ _. 0;
  rc4_crypt = λ k octets. (octets, k);
}

abbrev pub some_keys : Keys ℕ
some_keys = record {
  rc4_key_len = 16;
  rc4_decrypt_key = 0;
  rc4_encrypt_key = 0;
  sign_key = replicate 16 3;
  decrypt_key = replicate 16 4;
  encrypt_key = replicate 16 4;
  decrypt_update_key = replicate 16 4;
  encrypt_update_key = replicate 16 4;
  encrypt_use_count = 4095;
  decrypt_use_count = 4095;
}
