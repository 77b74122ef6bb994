-- ===== src/Licence/Issue.antt =====
-- source/licence.c: a licence that a server issues, as the client saves it.
use rdesktopce_rdp.Prelude.{
  ℕ, ◌+◌, ◌≤◌, leb, ◌≡◌, ◌⊎◌, inl, inr, refl, sym, ap, subst, ◌∙◌, true, some, List, [], ◌∷◌, ◌++◌,
  length, length-append, append_assoc, arith,
}
use rdesktopce_rdp.Stream.{Stream, at, s_check_rem, in_uint8s}
use rdesktopce_rdp.Stream.Read.{At, At-append, in_uint8_lem}
use rdesktopce_rdp.Stream.Takes.{word, word_octets}
use rdesktopce_rdp.Tcp.{Net}
use rdesktopce_rdp.Link
use rdesktopce_rdp.Secure.{Ssl, Keys}
use rdesktopce_rdp.Secure.Sync.{Involutive}
use rdesktopce_rdp.Secure.Wire.{Sizes}
use rdesktopce_rdp.Licence.{
  Licence, Holder, crypt, in_granted, save_licence, licence_process_issue, licence_process,
}
use rdesktopce_rdp.Licence.Wire.{in_octets}
use rdesktopce_rdp.Licence.Strings.{
  string_octets, strings_octets, issue_octets, licence_place, in_issue_lem, in_place_lem, save_lem,
}

module _ {Rc4 : Type 0} (ssl : Ssl Rc4) (twice : Involutive ssl) (sizes : Sizes ssl) where
  crypt-crypt : (l : Licence) (octets : List ℕ) → crypt ssl l (crypt ssl l octets) ≡ octets
  unfolding crypt
  crypt-crypt l octets = ap (λ r. r.0) (twice _ octets)

  length-crypt : (l : Licence) (octets : List ℕ) → length (crypt ssl l octets) ≡ length octets
  unfolding crypt
  length-crypt l octets = sizes.rc4 _ octets

  -- The decryption is undone, and nothing else has changed.
  decrypted :
      (l : Licence) (net : Net) (s : Stream) (u v : ℕ) (pre clear post : List ℕ)
      → let head = pre ++ (u ∷ v ∷ word_octets (length clear)) in
        net.g_in ≡ at s (head ++ (crypt ssl l clear ++ post)) (length pre)
        → length head + length clear ≤ s.end
        → licence_process_issue ssl l net
          ≡ in_granted ssl l
              (record net { g_in = at s (head ++ (clear ++ post)) (length pre + 2 + 2) })
  unfolding licence_process_issue in_uint8s s_check_rem
  decrypted l net s u v pre clear post laid fits =
      let n = length clear in
      let head = pre ++ (u ∷ v ∷ word_octets n) in
      let d = head ++ (crypt ssl l clear ++ post) in
      let four = length-append pre (u ∷ v ∷ word_octets n) in
      let split : d ≡ (pre ++ (u ∷ v ∷ [])) ++ (word_octets n ++ (crypt ssl l clear ++ post)) =
        append_assoc pre (u ∷ v ∷ word_octets n) (crypt ssl l clear ++ post)
        ∙ sym (append_assoc pre (u ∷ v ∷ []) (word_octets n ++ (crypt ssl l clear ++ post))) in
      let size = (word n).run (at s d (length pre + 2)) (
        subst (λ k. At k (length pre + 2) (word_octets n)) (sym split)
          (At-append (pre ++ (u ∷ v ∷ [])) (word_octets n) (crypt ssl l clear ++ post)
            (length pre + 2) (omega (arith, length-append pre (u ∷ v ∷ []))))) in
      let inside : leb (length pre + 2 + 2 + n) s.end ≡ true = ground (arith, fits, four) in
      let opened =
        in_place_lem (crypt ssl l) s head (crypt ssl l clear) post (length pre + 2 + 2) n
          (omega (arith, four)) (sym (length-crypt l clear)) in
      rw (laid, size, inside, opened, crypt-crypt l clear) refl

  -- The client behind an issue.
  abbrev granted : Licence → List ℕ → Licence
  granted l licence = record l { issued = true; saved = l.saved ++ (licence ∷ []) }

  saves :
      (l : Licence) (licence d : List ℕ) (s : Stream) (i j : ℕ)
      → in_octets (length licence) (at s d i) ≡ some (licence, at s d j)
      → save_licence ssl (some (length licence)) l (at s d i) ≡ some (granted l licence, at s d i)
  unfolding save_licence
  saves l licence d s i j e = rw (save_licence, e) refl

  in_granted_lem :
      (l : Licence) (net : Net) (s : Stream) (head a b c licence more post : List ℕ) (i : ℕ)
      → let clear = issue_octets a b c licence more in
        i ≡ length head
        → i + length clear ≤ s.end
        → in_granted ssl l (record net { g_in = at s (head ++ (clear ++ post)) i })
          ≡ some (
            granted l licence,
            record net {
              g_in = at s (head ++ (clear ++ post)) (length head + licence_place a b c);
            },
          )
  unfolding in_granted
  in_granted_lem l net s head a b c licence more post i e fits =
      let clear = issue_octets a b c licence more in
      let strings = strings_octets (a ∷ b ∷ c ∷ []) in
      let d = head ++ (clear ++ post) in
      let clear_at : At d i clear = At-append head clear post i e in
      let zeros = (word 0).run (at s d i) (clear_at.0, (clear_at.1.0, tt)) in
      let tail =
        in_issue_lem a b c licence more (at s d (i + 2))
          (subst (λ k. At d k (strings ++ (string_octets licence ++ more))) (omega arith)
            clear_at.1.1.1.1)
          (omega (
            arith,
            fits,
            length-append strings (string_octets licence ++ more),
            length-append licence more,
          )) in
      let place = i + 2 + 2 + length strings + 4 in
      let saved =
        saves l licence d s place _
          (save_lem a b c licence more head post s place (omega (arith, e))) in
      rw (zeros, tail)
        (ap (Link.with_in net) saved
          ∙ ap (λ k. some (granted l licence, record net { g_in = at s d k })) (omega (arith, e)))

  -- The first four octets of a message.
  tagged :
      (h : Holder) (userid : ℕ) (keys : Keys Rc4) (l : Licence) (net : Net) (s : Stream)
      (t x y z : ℕ) (d : List ℕ) (i : ℕ)
      → (t ≡ 3) ⊎ (t ≡ 4)
      → At d i (t ∷ [])
      → net.g_in ≡ at s d i
      → licence_process ssl h userid keys l net
        ≡ Link.bind
            (licence_process_issue ssl l (record net { g_in = at s d (i + 1 + 3) }))
            (λ l'. Link.pure (l', keys))
  unfolding licence_process in_uint8s
  tagged h userid keys l net s t x y z d i (inl e) k laid =
      rw (laid, in_uint8_lem (at s d i) t k.0, e) refl
  tagged h userid keys l net s t x y z d i (inr e) k laid =
      rw (laid, in_uint8_lem (at s d i) t k.0, e) refl

  -- The client behind a message that begins at `i` and whose clear octets are behind `head`.
  module _ (h : Holder) (userid : ℕ) (keys : Keys Rc4) (l : Licence) (net : Net) (s : Stream)
      (t x y z u v : ℕ) (pre a b c licence more post : List ℕ) (kind : (t ≡ 3) ⊎ (t ≡ 4)) where
    clear : List ℕ
    clear = issue_octets a b c licence more

    abbrev Served : List ℕ → Type 0
    Served head =
        net.g_in ≡ at s (head ++ (crypt ssl l clear ++ post)) (length pre)
        → length head + length clear ≤ s.end
        → licence_process ssl h userid keys l net
          ≡ some (
            (granted l licence, keys),
            record net {
              g_in = at s (head ++ (clear ++ post)) (length head + licence_place a b c);
            },
          )

    in_two_parts : Served ((pre ++ (t ∷ x ∷ y ∷ z ∷ [])) ++ (u ∷ v ∷ word_octets (length clear)))
    unfolding clear
    in_two_parts laid fits =
        let words = u ∷ v ∷ word_octets (length clear) in
        let first = pre ++ (t ∷ x ∷ y ∷ z ∷ []) in
        let r = crypt ssl l clear ++ post in
        let d = (first ++ words) ++ r in
        let sizes = length-append pre (t ∷ x ∷ y ∷ z ∷ []) in
        let tag : At d (length pre) (t ∷ []) =
          subst (λ k. At k (length pre) (t ∷ []))
            (sym (append_assoc first words r ∙ append_assoc pre (t ∷ x ∷ y ∷ z ∷ []) (words ++ r)))
            (At-append pre (t ∷ []) (x ∷ y ∷ z ∷ (words ++ r)) (length pre) refl) in
        let net' : Net = record net { g_in = at s d (length pre + 1 + 3) } in
        let e1 = tagged h userid keys l net s t x y z d (length pre) kind tag laid in
        let e2 =
          decrypted l net' s u v first clear post (ap (at s d) (omega (arith, sizes))) fits in
        let e3 =
          in_granted_lem l net s (first ++ words) a b c licence more post (length first + 2 + 2)
            (omega (arith, length-append first words))
            (omega (arith, fits, length-append first words)) in
        e1 ∙ ap (λ r. Link.bind r (λ l'. Link.pure (l', keys))) (e2 ∙ e3)

    -- An issue or reissue of a licence, its four strings encrypted by the server with the licence
    -- key, is decrypted in its place and understood by `licence_process`: the client is licensed,
    -- has saved the last string and no other, and keeps all else; for an RC4 that is its own
    -- inverse and keeps the length, and a packet that holds the message.
    pub licence_process-issue_octets :
        let clear = issue_octets a b c licence more in
        let head = pre ++ (t ∷ x ∷ y ∷ z ∷ u ∷ v ∷ word_octets (length clear)) in
        net.g_in ≡ at s (head ++ (crypt ssl l clear ++ post)) (length pre)
        → length head + length clear ≤ s.end
        → licence_process ssl h userid keys l net
          ≡ some (
            (record l { issued = true; saved = l.saved ++ (licence ∷ []) }, keys),
            record net {
              g_in = at s (head ++ (clear ++ post)) (length head + licence_place a b c);
            },
          )
    unfolding clear
    licence_process-issue_octets =
        subst Served (append_assoc pre (t ∷ x ∷ y ∷ z ∷ []) (u ∷ v ∷ word_octets (length clear)))
          in_two_parts
