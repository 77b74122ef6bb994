-- ===== src/Licence/Tests.antt =====
-- The theorems on source/licence.c at a small licence.
use rdesktopce_rdp.Prelude.{ℕ, ◌≡◌, refl, inl, List, [], ◌∷◌, false, true, some, replicate, arith}
use rdesktopce_rdp.Samples.{link, blank, plain_ssl, some_keys}
use rdesktopce_rdp.Tcp.{Net}
use rdesktopce_rdp.Licence.{Licence, Holder, crypt, licence_process}
use rdesktopce_rdp.Licence.Wire.{out_request, out_present, out_authresp}
use rdesktopce_rdp.Licence.Strings.{issue_octets}
use rdesktopce_rdp.Licence.Issue.{licence_process-issue_octets}
use rdesktopce_rdp.Licence.Lengths.{Framed, licence_messages-Framed}

abbrev holder : Holder
holder = record { username = 65 ∷ []; hostname = 66 ∷ []; rdp5 = true; stored = [] }

abbrev unlicensed : Licence
unlicensed = record {
  key = replicate 16 5;
  sign_key = replicate 16 6;
  issued = false;
  error_result = false;
  saved = [];
}

abbrev clear : List ℕ
clear = issue_octets [] (1 ∷ []) (2 ∷ 3 ∷ []) (7 ∷ 8 ∷ 9 ∷ []) []

abbrev packet : List ℕ → List ℕ
packet octets = 3 ∷ 3 ∷ 30 ∷ 0 ∷ 0x3d ∷ 0x45 ∷ 26 ∷ 0 ∷ octets

abbrev received : Net
received = record (link []) { g_in = record (blank (packet clear)) { end = 34 } }

licence_process-issue_octets_example :
    licence_process plain_ssl holder 5 some_keys unlicensed received
    ≡ some (
      (record unlicensed { issued = true; saved = (7 ∷ 8 ∷ 9 ∷ []) ∷ [] }, some_keys),
      record received { g_in = record (blank (packet clear)) { p = 31; end = 34 } },
    )
unfolding crypt
licence_process-issue_octets_example =
    licence_process-issue_octets plain_ssl (λ k octets. refl)
      (record { md5 = λ _. refl; rc4 = λ _ _. refl }) holder 5 some_keys unlicensed received
      (record (blank []) { end = 34 }) 3 3 30 0 0x3d 0x45 [] [] (1 ∷ []) (2 ∷ 3 ∷ [])
      (7 ∷ 8 ∷ 9 ∷ []) [] [] (inl refl) refl (omega arith)

licence_messages-Framed_example :
    Framed (out_request true (65 ∷ 0 ∷ []) (66 ∷ 0 ∷ [])) true 0x13 132
    × Framed (out_present true (1 ∷ []) (replicate 20 0) (replicate 16 0)) true 0x12 165
    × Framed (out_authresp true (replicate 10 0) (replicate 20 0) (replicate 16 0)) true 0x15 58
licence_messages-Framed_example =
    licence_messages-Framed true (65 ∷ 0 ∷ []) (66 ∷ 0 ∷ []) (1 ∷ []) (replicate 20 0)
      (replicate 16 0) (replicate 10 0) (omega arith) (omega arith) refl refl refl
