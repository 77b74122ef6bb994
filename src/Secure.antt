-- ===== src/Secure.antt =====
-- source/secure.c: the keys and the cipher of a session, over the hashes and the RC4 of the library.
pub mod Sync
mod Tests
pub mod Packet
pub mod Sent
pub mod Wire
pub mod Blob
pub mod Length
pub mod Receive
pub mod Opened
pub mod Received
use rdesktopce_rdp.Prelude.{
  ℕ, ◌+◌, ◌*◌, ◌/◌, ◌%◌, ◌^◌, Bool, true, false, List, [], ◌∷◌, ◌++◌, ◌==◌, if◌then◌else◌, length,
  take, drop, replicate,
}

-- The calls of OpenSSL, or of its replacement: a hash by the octets that its updates have put together,
-- RC4 by its state.
pub record Ssl (Rc4 : Type 0) : Type 0 where
  pub sha1 : List ℕ → List ℕ
  pub md5 : List ℕ → List ℕ
  pub rc4_set_key : List ℕ → Rc4
  pub rc4_crypt : Rc4 → List ℕ → List ℕ × Rc4

-- The static variables of the file that change during a session.
pub record Keys (Rc4 : Type 0) : Type 0 where
  pub rc4_key_len : ℕ
  pub rc4_decrypt_key : Rc4
  pub rc4_encrypt_key : Rc4
  pub sign_key : List ℕ
  pub decrypt_key : List ℕ
  pub encrypt_key : List ℕ
  pub decrypt_update_key : List ℕ
  pub encrypt_update_key : List ℕ
  pub encrypt_use_count : ℕ
  pub decrypt_use_count : ℕ

abbrev pub pad_54 : List ℕ
pad_54 = replicate 40 54

abbrev pub pad_92 : List ℕ
pad_92 = replicate 48 92

-- Reduce the entropy of a key from 64 to 40 bits.
unfoldable pub sec_make_40bit : List ℕ → List ℕ
sec_make_40bit key = 0xd1 ∷ 0x26 ∷ 0x9e ∷ drop 3 key

unfoldable pub buf_out_uint32 : ℕ → List ℕ
buf_out_uint32 v = v % 256 ∷ v / 2 ^ 8 % 256 ∷ v / 2 ^ 16 % 256 ∷ v / 2 ^ 24 % 256 ∷ []

module _ {Rc4 : Type 0} (ssl : Ssl Rc4) where
  -- One of the three rounds of `sec_hash_48`.
  unfoldable pub hash_round : ℕ → List ℕ → List ℕ → List ℕ → ℕ → List ℕ
  hash_round i octets salt1 salt2 salt =
      let shasig = ssl.sha1 (
        replicate (i + 1) ((salt + i) % 256)
        ++ (take 48 octets ++ (take 32 salt1 ++ take 32 salt2))) in
      ssl.md5 (take 48 octets ++ shasig)

  unfoldable pub sec_hash_48 : List ℕ → List ℕ → List ℕ → ℕ → List ℕ
  unfolding hash_round
  sec_hash_48 octets salt1 salt2 salt =
      hash_round 0 octets salt1 salt2 salt
      ++ (hash_round 1 octets salt1 salt2 salt ++ hash_round 2 octets salt1 salt2 salt)

  unfoldable pub sec_hash_16 : List ℕ → List ℕ → List ℕ → List ℕ
  sec_hash_16 octets salt1 salt2 = ssl.md5 (take 16 octets ++ (take 32 salt1 ++ take 32 salt2))

  -- The keys of a session. The use counts are not touched.
  unfoldable pub sec_generate_keys : List ℕ → List ℕ → ℕ → Keys Rc4 → Keys Rc4
  unfolding sec_hash_48 sec_hash_16 sec_make_40bit
  sec_generate_keys client_random server_random rc4_key_size keys =
      let pre_master_secret = take 24 client_random ++ take 24 server_random in
      let master_secret = sec_hash_48 pre_master_secret client_random server_random 65 in
      let key_block = sec_hash_48 master_secret client_random server_random 88 in
      let weaken : List ℕ → List ℕ = λ key. if rc4_key_size == 1 then sec_make_40bit key else key in
      let n : ℕ = if rc4_key_size == 1 then 8 else 16 in
      let sign = weaken (take 16 key_block) in
      let decrypt = weaken (sec_hash_16 (drop 16 key_block) client_random server_random) in
      let encrypt = weaken (sec_hash_16 (drop 32 key_block) client_random server_random) in
      record keys {
        rc4_key_len = n;
        sign_key = sign;
        decrypt_key = decrypt;
        encrypt_key = encrypt;
        decrypt_update_key = take 16 decrypt;
        encrypt_update_key = take 16 encrypt;
        rc4_decrypt_key = ssl.rc4_set_key (take n decrypt);
        rc4_encrypt_key = ssl.rc4_set_key (take n encrypt);
      }

  -- The first `siglen` octets of the MAC.
  unfoldable pub sec_sign : ℕ → List ℕ → List ℕ → List ℕ
  unfolding buf_out_uint32
  sec_sign siglen session_key octets =
      let shasig =
        ssl.sha1 (session_key ++ (pad_54 ++ (buf_out_uint32 (length octets) ++ octets))) in
      take siglen (ssl.md5 (session_key ++ (pad_92 ++ shasig)))

  -- The new key from the old one, of which `n` octets are used.
  unfoldable pub sec_update : ℕ → List ℕ → List ℕ → List ℕ
  unfolding sec_make_40bit
  sec_update n key update_key =
      let shasig = ssl.sha1 (take n update_key ++ (pad_54 ++ take n key)) in
      let mixed = ssl.md5 (take n update_key ++ (pad_92 ++ shasig)) in
      let (crypted, _) = ssl.rc4_crypt (ssl.rc4_set_key (take n mixed)) (take n mixed) in
      let key' = crypted ++ drop n mixed in if n == 8 then sec_make_40bit key' else key'

  -- `if (g_sec_encrypt_use_count == 4096) { ... }`
  unfoldable pub refresh_encrypt : Keys Rc4 → Keys Rc4
  unfolding sec_update
  refresh_encrypt keys =
      let key = sec_update keys.rc4_key_len keys.encrypt_key keys.encrypt_update_key in
      if keys.encrypt_use_count == 4096
      then record keys {
        encrypt_key = key;
        rc4_encrypt_key = ssl.rc4_set_key (take keys.rc4_key_len key);
        encrypt_use_count = 0;
      }
      else keys

  unfoldable pub sec_encrypt : List ℕ → Keys Rc4 → List ℕ × Keys Rc4
  unfolding refresh_encrypt
  sec_encrypt octets keys₀ =
      let keys = refresh_encrypt keys₀ in
      let (crypted, rc4) = ssl.rc4_crypt keys.rc4_encrypt_key octets in
      (
        crypted,
        record keys { rc4_encrypt_key = rc4; encrypt_use_count = keys.encrypt_use_count + 1 },
      )

  unfoldable pub refresh_decrypt : Keys Rc4 → Keys Rc4
  unfolding sec_update
  refresh_decrypt keys =
      let key = sec_update keys.rc4_key_len keys.decrypt_key keys.decrypt_update_key in
      if keys.decrypt_use_count == 4096
      then record keys {
        decrypt_key = key;
        rc4_decrypt_key = ssl.rc4_set_key (take keys.rc4_key_len key);
        decrypt_use_count = 0;
      }
      else keys

  unfoldable pub sec_decrypt : List ℕ → Keys Rc4 → List ℕ × Keys Rc4
  unfolding refresh_decrypt
  sec_decrypt octets keys₀ =
      let keys = refresh_decrypt keys₀ in
      let (plain, rc4) = ssl.rc4_crypt keys.rc4_decrypt_key octets in
      (plain, record keys { rc4_decrypt_key = rc4; decrypt_use_count = keys.decrypt_use_count + 1 })
