-- ===== src/Mppc/Ascii.antt =====
-- source/mppc.c: octets below 128 stand for themselves.
use rdesktopce_rdp.Prelude.{
  ℕ, zero, suc, ◌+◌, ◌*◌, ◌/◌, ◌%◌, ◌^◌, ◌≡◌, ◌≢◌, ◌≤◌, ◌<◌, refl, ◌∙◌, Bool, not, List, [], ◌∷◌,
  ◌==◌, length, arith, bit_and,
}
use rdesktopce_rdp.Mppc.{
  dict_size, Hist, write, State, again, finish, put, literal, body, round, done, loop, Dict,
  expanded, prepare, conclude, fuel_for, mppc_expand,
}
use rdesktopce_rdp.Mppc.Copy.{write-hit, write-miss}
use rdesktopce_rdp.Mppc.Bits.{reload, ready, shift}

-- The octets are plain text.
pub data Ascii : List ℕ → Type 0 where
  nothing : Ascii []
  then_octet : {b : ℕ} {bs : List ℕ} → b < 128 → Ascii bs → Ascii (b ∷ bs)

-- The history after the octets are written at `i`.
abbrev pub laid : ℕ → List ℕ → Hist → Hist
laid i [] h = h
laid i (b ∷ bs) h = laid (i + 1) bs (write h i b)

abbrev at_octet : ℕ → List ℕ → ℕ → Hist → State
at_octet w bs i h = record {
  reader = record { walker = w; walker_len = 0; rest = bs };
  next_offset = i;
  hist = h;
}

top_octet : (b : ℕ) → b < 128 → b * 2 ^ 24 % 2 ^ 32 / 2 ^ 24 ≡ b
top_octet b p = omega arith

round_octet :
    (big : Bool) (w b : ℕ) (bs : List ℕ) (i : ℕ) (h : Hist)
    → b < 128
    → i < dict_size
    → round big (at_octet w (b ∷ bs) i h) ≡ again (at_octet 0 bs (i + 1) (write h i b))
unfolding round ready reload body literal put shift
round_octet big w b bs i h p q = ground (arith, top_octet b)

round_end :
    (big : Bool) (w i : ℕ) (h : Hist) → round big (at_octet w [] i h) ≡ finish (at_octet w [] i h)
unfolding round ready reload
round_end big w i h = refl

last_walker : ℕ → List ℕ → ℕ
last_walker w [] = w
last_walker w (b ∷ bs) = 0

loop_text :
    (big : Bool) (fuel w : ℕ) (bs : List ℕ) (i : ℕ) (h : Hist)
    → Ascii bs
    → i + length bs ≤ dict_size
    → length bs < fuel
    → loop big fuel (at_octet w bs i h)
      ≡ done (at_octet (last_walker w bs) [] (i + length bs) (laid i bs h))
unfolding loop last_walker
loop_text big zero w bs i h a p q = ground arith
loop_text big (suc fuel) w [] i h a p q = ground (arith, round_end big w i h)
loop_text big (suc fuel) w (b ∷ bs) i h (then_octet c a) p q = ground (
  arith,
  round_octet big w b bs i h c (omega arith),
  loop_text big fuel 0 bs (i + 1) (write h i b) a (omega arith) (omega arith),
)

conclude_text :
    (p : Dict) (w : ℕ) (bs : List ℕ) (h : Hist)
    → conclude p (done (at_octet w [] (p.roff + length bs) h))
      ≡ expanded p.roff (length bs) (record { roff = p.roff + length bs; hist = h })
unfolding conclude
conclude_text p w bs h = ground arith

-- The `n` octets of the history from `i` on, as a caller copies them.
abbrev pub taken : Hist → ℕ → ℕ → List ℕ
taken h i zero = []
taken h i (suc n) = h i ∷ taken h (i + 1) n

laid_before : (bs : List ℕ) (i j : ℕ) (h : Hist) → j < i → laid i bs h j ≡ h j
laid_before [] i j h p = refl
laid_before (b ∷ bs) i j h p =
    laid_before bs (i + 1) j (write h i b) (omega arith) ∙ write-miss h i b j (omega arith)

taken-laid : (bs : List ℕ) (i : ℕ) (h : Hist) → taken (laid i bs h) i (length bs) ≡ bs
taken-laid [] i h = refl
taken-laid (b ∷ bs) i h = ground (
  arith,
  laid_before bs (i + 1) i (write h i b),
  write-hit h i b,
  taken-laid bs (i + 1) (write h i b),
)

text_lem :
    (bs : List ℕ) (ctype : ℕ) (d : Dict)
    → Ascii bs
    → bit_and ctype 0x20 ≢ 0
    → (prepare ctype d).roff + length bs ≤ dict_size
    → mppc_expand bs ctype d
      ≡ expanded (prepare ctype d).roff (length bs) (record {
        roff = (prepare ctype d).roff + length bs;
        hist = laid (prepare ctype d).roff bs (prepare ctype d).hist;
      })
unfolding mppc_expand
text_lem [] ctype d a c p = ground arith
text_lem (b ∷ bs) ctype d a c p =
    let q = prepare ctype d in
    let big = not (bit_and ctype 0x01 == 0) in
    ground (
      arith,
      loop_text big (fuel_for (b ∷ bs)) q.roff (b ∷ bs) q.roff q.hist a p (omega arith),
      conclude_text q (last_walker q.roff (b ∷ bs)) (b ∷ bs) (laid q.roff (b ∷ bs) q.hist),
    )

-- Octets below 128 that fit the history, marked compressed, expand to themselves: the caller is
-- told of as many octets behind the end of the history, and finds them there.
pub mppc_expand_text :
    (bs : List ℕ) (ctype : ℕ) (d : Dict)
    → Ascii bs
    → bit_and ctype 0x20 ≢ 0
    → (prepare ctype d).roff + length bs ≤ dict_size
    → (h : Hist) × (mppc_expand bs ctype d
        ≡ expanded
            (prepare ctype d).roff
            (length bs)
            (record { roff = (prepare ctype d).roff + length bs; hist = h }))
      × (taken h (prepare ctype d).roff (length bs) ≡ bs)
mppc_expand_text bs ctype d a c p =
    let q = prepare ctype d in
    (laid q.roff bs q.hist, text_lem bs ctype d a c p, taken-laid bs q.roff q.hist)
