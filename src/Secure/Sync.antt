-- ===== src/Secure/Sync.antt =====
-- source/secure.c: two ends with the same keys understand each other, over changes of the keys.
use rdesktopce_rdp.Prelude.{ℕ, ◌+◌, ◌≡◌, refl, sym, ap, List, [], ◌∷◌, arith}
use rdesktopce_rdp.Secure.{Ssl, Keys, refresh_encrypt, refresh_decrypt, sec_encrypt, sec_decrypt}

-- What the one end encrypts with, the other decrypts with.
pub record Paired {Rc4 : Type 0} (sender receiver : Keys Rc4) : Type 0 where
  pub len : sender.rc4_key_len ≡ receiver.rc4_key_len
  pub rc4 : sender.rc4_encrypt_key ≡ receiver.rc4_decrypt_key
  pub key : sender.encrypt_key ≡ receiver.decrypt_key
  pub update_key : sender.encrypt_update_key ≡ receiver.decrypt_update_key
  pub count : sender.encrypt_use_count ≡ receiver.decrypt_use_count

-- RC4 adds a key stream: the state does not depend on the octets, and a second time gives them back.
abbrev pub Involutive : {Rc4 : Type 0} → Ssl Rc4 → Type 0
Involutive {Rc4} ssl =
    (k : Rc4) (octets : List ℕ)
    → ssl.rc4_crypt k (ssl.rc4_crypt k octets).0 ≡ (octets, (ssl.rc4_crypt k octets).1)

module _ {Rc4 : Type 0} (ssl : Ssl Rc4) where
  -- Encrypt one packet after another.
  unfoldable pub encrypt_all : List (List ℕ) → Keys Rc4 → List (List ℕ) × Keys Rc4
  encrypt_all [] keys = ([], keys)
  encrypt_all (p ∷ ps) keys =
      let (c, keys') = sec_encrypt ssl p keys in
      let (cs, keys'') = encrypt_all ps keys' in (c ∷ cs, keys'')

  unfoldable pub decrypt_all : List (List ℕ) → Keys Rc4 → List (List ℕ) × Keys Rc4
  decrypt_all [] keys = ([], keys)
  decrypt_all (c ∷ cs) keys =
      let (p, keys') = sec_decrypt ssl c keys in
      let (ps, keys'') = decrypt_all cs keys' in (p ∷ ps, keys'')

  refresh-Paired :
      (s r : Keys Rc4) → Paired s r → Paired (refresh_encrypt ssl s) (refresh_decrypt ssl r)
  unfolding refresh_encrypt refresh_decrypt
  refresh-Paired s r p = record {
    len = ground (arith, p.len);
    rc4 = ground (arith, p.len, p.rc4, p.key, p.update_key, p.count);
    key = ground (arith, p.len, p.rc4, p.key, p.update_key, p.count);
    update_key = ground (arith, p.update_key);
    count = ground (arith, p.count);
  }

  pub one-Paired :
      Involutive ssl
      → (octets : List ℕ) (s r : Keys Rc4) → Paired s r
      → ((sec_decrypt ssl (sec_encrypt ssl octets s).0 r).0 ≡ octets)
        × Paired (sec_encrypt ssl octets s).1 (sec_decrypt ssl (sec_encrypt ssl octets s).0 r).1
  unfolding sec_encrypt sec_decrypt
  one-Paired involutive octets s r p =
      let q = refresh-Paired s r p in
      let k = (refresh_encrypt ssl s).rc4_encrypt_key in
      let i = involutive k octets in
      let same : ssl.rc4_crypt (refresh_decrypt ssl r).rc4_decrypt_key (ssl.rc4_crypt k octets).0
          ≡ (octets, (ssl.rc4_crypt k octets).1) =
        rw (sym q.rc4) i in
      (
        ap (λ x. x.0) same,
        record {
          len = q.len;
          rc4 = sym (ap (λ x. x.1) same);
          key = q.key;
          update_key = q.update_key;
          count = ap (λ n. n + 1) q.count;
        },
      )

  -- Two ends whose keys agree stay in step: with an RC4 that is its own inverse, the receiver
  -- decrypts every packet of a sequence to what the sender encrypted, over any number of changes
  -- of the keys, and the keys agree afterwards.
  pub sec_decrypt-sec_encrypt :
      Involutive ssl
      → (packets : List (List ℕ)) (s r : Keys Rc4) → Paired s r
      → ((decrypt_all (encrypt_all packets s).0 r).0 ≡ packets)
        × Paired (encrypt_all packets s).1 (decrypt_all (encrypt_all packets s).0 r).1
  unfolding encrypt_all decrypt_all
  sec_decrypt-sec_encrypt involutive [] s r p = (refl, p)
  sec_decrypt-sec_encrypt involutive (octets ∷ packets) s r p =
      let (same, q) = one-Paired involutive octets s r p in
      let (rest, q') =
        sec_decrypt-sec_encrypt involutive packets (sec_encrypt ssl octets s).1
          (sec_decrypt ssl (sec_encrypt ssl octets s).0 r).1 q in
      (ground (arith, same, rest), q')
