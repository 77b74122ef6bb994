-- ===== src/Mppc/Tests.antt =====
-- Runs of the decompressor.
use rdesktopce_rdp.Prelude.{
  ℕ, ◌≡◌, ◌≢◌, ◌+◌, ◌≤◌, ◌⊎◌, true, refl, arith, List, [], ◌∷◌, map, ◌<◌, ◌==◌, if◌then◌else◌,
  Option, none, some,
}
use rdesktopce_rdp.Mppc.{
  Dict, Hist, mppc_expand, Result, expanded, failed, broken, endless, prepare, copy, State, again,
  refused, copy_match,
}
use rdesktopce_rdp.Mppc.Copy.{Copied, copy-Copied}
use rdesktopce_rdp.Mppc.Bits.{Reader}
use rdesktopce_rdp.Mppc.Match.{Matched, copy_match-Matched}
use rdesktopce_rdp.Mppc.Loop.{Window, mppc_expand_ends, mppc_expand-Window, mppc_expand_failed}
use rdesktopce_rdp.Mppc.Ascii.{nothing, then_octet, taken, mppc_expand_text}

abbrev empty : Dict
empty = record { roff = 0; hist = λ _. 0 }

-- The first octets of what was expanded.
abbrev first : List ℕ → Result → List ℕ
first is (expanded roff rlen d) = roff ∷ rlen ∷ map d.hist is
first is (failed roff rlen d) = []
first is _ = 1 ∷ []

ascii :
    first (0 ∷ 1 ∷ 2 ∷ []) (mppc_expand (72 ∷ 105 ∷ 33 ∷ []) 0x21 empty)
    ≡ 0 ∷ 3 ∷ 72 ∷ 105 ∷ 33 ∷ []
unfolding mppc_expand
ascii = refl

-- "ab" and a match of four octets at the offset 2, in the large format.
match :
    first (0 ∷ 1 ∷ 2 ∷ 3 ∷ 4 ∷ 5 ∷ 6 ∷ []) (mppc_expand (97 ∷ 98 ∷ 0xf8 ∷ 0x50 ∷ []) 0x21 empty)
    ≡ 0 ∷ 6 ∷ 97 ∷ 98 ∷ 97 ∷ 98 ∷ 97 ∷ 98 ∷ 0 ∷ []
unfolding mppc_expand
match = refl

-- An offset of 1 into an empty history reads behind its end.
before_start : mppc_expand (0xf8 ∷ 0x20 ∷ []) 0x21 empty ≡ broken
unfolding mppc_expand
before_start = refl

mppc_expand_ends_example : mppc_expand (72 ∷ 255 ∷ []) 0x20 empty ≢ endless
mppc_expand_ends_example = mppc_expand_ends (72 ∷ 255 ∷ []) 0x20 empty

-- The outcomes of two calls: the dictionary after a success, and after a refusal.
abbrev after : Result → Dict
after (expanded roff rlen d) = d
after (failed roff rlen d) = d
after _ = empty

abbrev text : List ℕ
text = 72 ∷ 105 ∷ 33 ∷ []

mppc_expand-Window_example : Window (prepare 0x21 empty) 0 3 (after (mppc_expand text 0x21 empty))
unfolding mppc_expand
mppc_expand-Window_example =
    mppc_expand-Window text 0x21 empty (after (mppc_expand text 0x21 empty)) 0 3 (omega arith)
      (omega arith) refl

-- A match whose offset is cut off, behind a literal.
abbrev torn : List ℕ
torn = 72 ∷ 0xf8 ∷ []

abbrev two : Hist
two j = if j == 0 then 97 else if j == 1 then 98 else 0

-- A dictionary of two octets.
abbrev filled : Dict
filled = record { roff = 2; hist = two }

mppc_expand_failed_example :
    (◌≡◌ {A = ℕ} 0 0)
    × (◌≡◌ {A = ℕ} 2 2)
    × ((after (mppc_expand torn 0x21 filled)).roff ≡ 2)
    × ((j : ℕ) → j < 2 → (after (mppc_expand torn 0x21 filled)).hist j ≡ two j)
unfolding mppc_expand
mppc_expand_failed_example =
    mppc_expand_failed torn 0x21 filled (after (mppc_expand torn 0x21 filled)) 2 0 (omega arith)
      refl

mppc_expand_text_example :
    (h : Hist) × (mppc_expand text 0x21 empty
      ≡ expanded
          (prepare 0x21 empty).roff
          3
          (record { roff = (prepare 0x21 empty).roff + 3; hist = h }))
    × (taken h (prepare 0x21 empty).roff 3 ≡ text)
unfolding prepare
mppc_expand_text_example =
    mppc_expand_text text 0x21 empty
      (then_octet (omega arith) (then_octet (omega arith) (then_octet (omega arith) nothing)))
      (omega arith) (omega arith)

abbrev history : Option (ℕ × Hist) → Hist
history none = two
history (some (next, h)) = h

abbrev bits : Reader
bits = record { walker = 0; walker_len = 0; rest = [] }

abbrev at_two : State
at_two = record { reader = bits; next_offset = 2; hist = two }

copy-Copied_example : Copied 4 0 2 two (history (copy 4 0 2 two)) 6
unfolding copy
copy-Copied_example = copy-Copied 4 0 2 two (history (copy 4 0 2 two)) 6 refl

-- Behind "ab", four octets from two before.
copy_match-Matched_example :
    ((65536 ≤ 6) × (copy_match true 2 4 bits at_two ≡ refused))
    ⊎ ((6 < 65536)
        × (s' : State) × (copy_match true 2 4 bits at_two ≡ again s')
        × Matched 2 4 bits at_two s')
copy_match-Matched_example =
    copy_match-Matched true 2 4 bits at_two (omega arith) (omega arith) (omega arith)
