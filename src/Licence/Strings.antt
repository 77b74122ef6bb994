-- ===== src/Licence/Strings.antt =====
-- source/licence.c: the strings of an issue, and its octets in the clear.
use rdesktopce_rdp.Prelude.{
  ℕ, suc, ◌+◌, ◌≤◌, leb, ◌≡◌, refl, sym, ap, subst, ◌∙◌, true, some, List, [], ◌∷◌, ◌++◌, length,
  take, drop, length-append, append_assoc, take-append, drop-append, arith,
}
use rdesktopce_rdp.Stream.{Stream, at, s_check_rem, in_uint8p, in_uint8s, in_uint32_le}
use rdesktopce_rdp.Stream.Read.{At}
use rdesktopce_rdp.Stream.Takes.{At-left, At-right, dword, dword_octets}
use rdesktopce_rdp.Licence.Wire.{in_octets, in_place, in_string, in_issue}

-- A string of the issue: its length and its octets.
abbrev pub string_octets : List ℕ → List ℕ
string_octets x = dword_octets (length x) ++ x

abbrev pub strings_octets : List (List ℕ) → List ℕ
strings_octets [] = []
strings_octets (x ∷ xs) = string_octets x ++ strings_octets xs

-- The length of the string at `size` behind the place is read, and the string is inside the packet.
one_string :
    (x more : List ℕ) (n size : ℕ) (s : Stream)
    → At s.bytes (s.p + size) (string_octets x ++ more)
    → s.p + size + 4 + length x ≤ s.end
    → in_string (suc n) size s ≡ in_string n (length x) (at s s.bytes (s.p + size + 4))
unfolding in_string s_check_rem in_uint8s
one_string x more n size s h fits =
    let read : in_uint32_le (at s s.bytes (s.p + size))
        ≡ some (length x, at s s.bytes (s.p + size + 4)) =
      (dword (length x)).run (at s s.bytes (s.p + size)) (
        At-left s.bytes (dword_octets (length x)) (x ++ more) (s.p + size)
          (subst (At s.bytes (s.p + size)) (append_assoc (dword_octets (length x)) x more) h)) in
    let inside : leb (s.p + size + 4 + length x) s.end ≡ true = ground (arith, fits) in
    rw (read, inside) refl

-- Strings are skipped, up to the length of the last.
in_strings :
    (xs : List (List ℕ)) (last more : List ℕ) (size : ℕ) (s : Stream)
    → At s.bytes (s.p + size) (strings_octets xs ++ (string_octets last ++ more))
    → s.p + size + length (strings_octets xs) + 4 + length last ≤ s.end
    → in_string (suc (length xs)) size s
      ≡ some (some (length last), at s s.bytes (s.p + size + length (strings_octets xs) + 4))
unfolding in_string
in_strings [] last more size s h fits =
    one_string last more 0 size s h (omega (arith, fits))
    ∙ ap (λ k. some (some (length last), at s s.bytes k)) (omega arith)
in_strings (x ∷ xs) last more size s h fits =
    let tail = strings_octets xs ++ (string_octets last ++ more) in
    let h' : At s.bytes (s.p + size) (string_octets x ++ tail) =
      subst (At s.bytes (s.p + size))
        (append_assoc (string_octets x) (strings_octets xs) (string_octets last ++ more)) h in
    let sizes = length-append (string_octets x) (strings_octets xs) in
    one_string x tail (suc (length xs)) size s h' (omega (arith, fits, sizes))
    ∙ in_strings xs last more (length x) (at s s.bytes (s.p + size + 4))
        (At-right s.bytes (string_octets x) tail (s.p + size) _ (omega arith) h')
        (omega (arith, fits, sizes))
    ∙ ap (λ k. some (some (length last), at s s.bytes k)) (omega (arith, sizes))

-- The clear octets of an issue with four strings.
abbrev pub issue_octets : List ℕ → List ℕ → List ℕ → List ℕ → List ℕ → List ℕ
issue_octets a b c licence more =
    0 ∷ 0 ∷ 0 ∷ 0 ∷ (strings_octets (a ∷ b ∷ c ∷ []) ++ (string_octets licence ++ more))

-- Where the last of them begins.
abbrev pub licence_place : List ℕ → List ℕ → List ℕ → ℕ
licence_place a b c = length (strings_octets (a ∷ b ∷ c ∷ [])) + 8

pub in_issue_lem :
    (a b c licence more : List ℕ) (s : Stream)
    → At s.bytes (s.p + 2) (strings_octets (a ∷ b ∷ c ∷ []) ++ (string_octets licence ++ more))
    → s.p + 2 + length (strings_octets (a ∷ b ∷ c ∷ [])) + 4 + length licence ≤ s.end
    → in_issue s
      ≡ some (
        some (length licence),
        at s s.bytes (s.p + 2 + length (strings_octets (a ∷ b ∷ c ∷ [])) + 4),
      )
unfolding in_issue in_uint8s
in_issue_lem a b c licence more s h fits =
    in_strings (a ∷ b ∷ c ∷ []) licence more 0 (at s s.bytes (s.p + 2))
      (subst
        (λ k. At s.bytes k (strings_octets (a ∷ b ∷ c ∷ []) ++ (string_octets licence ++ more)))
        (omega arith) h)
      (omega (arith, fits))
    ∙ ap (λ k. some (some (length licence), at s s.bytes k)) (omega arith)

pub in_place_lem :
    (f : List ℕ → List ℕ) (s : Stream) (pre octets post : List ℕ) (i n : ℕ)
    → i ≡ length pre
    → n ≡ length octets
    → in_place f n (at s (pre ++ (octets ++ post)) i)
      ≡ some (tt, at s (pre ++ (f octets ++ post)) i)
unfolding in_place
in_place_lem f s pre octets post i n e h =
    let sizes = length-append pre (octets ++ post) in
    let fits : leb (i + n) (length (pre ++ (octets ++ post))) ≡ true =
      ground (arith, sizes, length-append octets post, e, h) in
    let before = take-append pre (octets ++ post) i e in
    let behind = drop-append pre (octets ++ post) i e in
    let here : take n (octets ++ post) ≡ octets = take-append octets post n h in
    let after : drop (i + n) (pre ++ (octets ++ post)) ≡ post =
      ap (drop (i + n)) (sym (append_assoc pre octets post))
      ∙ drop-append (pre ++ octets) post (i + n) (omega (arith, length-append pre octets, e, h)) in
    rw (fits, before, behind, here, after) refl

split_lem :
    (head strings len licence more post : List ℕ)
    → head ++ ((0 ∷ 0 ∷ 0 ∷ 0 ∷ (strings ++ ((len ++ licence) ++ more))) ++ post)
      ≡ (head ++ (0 ∷ 0 ∷ 0 ∷ 0 ∷ (strings ++ len))) ++ (licence ++ (more ++ post))
split_lem head strings len licence more post =
    rw
      (
        append_assoc strings ((len ++ licence) ++ more) post,
        append_assoc (len ++ licence) more post,
        append_assoc len licence (more ++ post),
        append_assoc head (0 ∷ 0 ∷ 0 ∷ 0 ∷ (strings ++ len)) (licence ++ (more ++ post)),
        append_assoc strings len (licence ++ (more ++ post)),
      )
      refl

-- The licence in the clear octets is what is saved.
pub save_lem :
    (a b c licence more head post : List ℕ) (s : Stream) (i : ℕ)
    → let place = length head + licence_place a b c in
      i ≡ place
      → in_octets (length licence) (at s (head ++ (issue_octets a b c licence more ++ post)) i)
        ≡ some
            (licence, at s (head ++ (issue_octets a b c licence more ++ post)) (i + length licence))
unfolding in_octets in_uint8p
save_lem a b c licence more head post s i e =
    let strings = strings_octets (a ∷ b ∷ c ∷ []) in
    let clear = issue_octets a b c licence more in
    let before = 0 ∷ 0 ∷ 0 ∷ 0 ∷ (strings ++ dword_octets (length licence)) in
    let split : head ++ (clear ++ post) ≡ (head ++ before) ++ (licence ++ (more ++ post)) =
      split_lem head strings (dword_octets (length licence)) licence more post in
    let size : i ≡ length (head ++ before) = omega (
      arith,
      e,
      length-append head before,
      length-append strings (dword_octets (length licence)),
    ) in
    let memory : drop i (head ++ (clear ++ post)) ≡ licence ++ (more ++ post) =
      ap (drop i) split ∙ drop-append (head ++ before) (licence ++ (more ++ post)) i size in
    let enough : leb (length licence) (length (licence ++ (more ++ post))) ≡ true =
      ground (arith, length-append licence (more ++ post)) in
    rw (memory, enough, take-append licence (more ++ post) (length licence) refl) refl
