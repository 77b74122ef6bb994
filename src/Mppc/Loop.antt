-- ===== src/Mppc/Loop.antt =====
-- source/mppc.c: the loop of mppc_expand ends, and the octets it has expanded are in the history.
use rdesktopce_rdp.Prelude.{
  ℕ, zero, suc, ◌+◌, ◌≡◌, ◌≢◌, ◌≤◌, ◌<◌, refl, ◌∙◌, subst, Bool, not, List, ◌==◌, Bool-cases,
  length, inl, inr, arith, ◌⊎◌, bit_and, ◌&&◌, if◌then◌else◌,
}
use rdesktopce_rdp.Mppc.{
  dict_size, State, Round, again, finish, refused, fault, round, Outcome, done, bad, crash,
  out_of_fuel, loop, Dict, expanded, failed, endless, prepare, conclude, start, fuel_for,
  mppc_expand,
}
use rdesktopce_rdp.Mppc.Consume.{left}
use rdesktopce_rdp.Mppc.Bounds.{Appends, round-Advances, round_finish}

pub Round-cases :
    (r : Round)
    → ((s : State) × (r ≡ again s)) ⊎ ((s : State) × (r ≡ finish s)) ⊎ (r ≡ refused) ⊎ (r ≡ fault)
Round-cases (again s) = inl (s, refl)
Round-cases (finish s) = inr (inl (s, refl))
Round-cases refused = inr (inr (inl refl))
Round-cases fault = inr (inr (inr refl))

loop_ends :
    (big : Bool) (fuel : ℕ) (s : State) → left s.reader < fuel → loop big fuel s ≢ out_of_fuel
unfolding loop
loop_ends big zero s p = omega arith
loop_ends big (suc fuel) s p = elim (Round-cases (round big s)) [
  | inl (s', e) ↦ ground (arith, e, loop_ends big fuel s', (round-Advances big s s' e).spends)
  | inr (inl (s', e)) ↦ ground (arith, e)
  | inr (inr (inl e)) ↦ ground (arith, e)
  | inr (inr (inr e)) ↦ ground (arith, e)
]

Appends-chain : (s t u : State) → Appends s t → Appends t u → Appends s u
Appends-chain s t u p q = record {
  lower = omega (arith, p.lower, q.lower);
  upper = q.upper;
  before = λ j h. q.before j (omega (arith, p.lower)) ∙ p.before j h;
  after = λ j h. q.after j h ∙ p.after j (omega (arith, q.lower));
}

Appends-still :
    (s t : State)
    → s.next_offset ≤ dict_size
    → (t.next_offset ≡ s.next_offset) × (t.hist ≡ s.hist)
    → Appends s t
Appends-still s t p (e, h) = record {
  lower = omega arith;
  upper = omega arith;
  before = λ j q. ground (arith, h);
  after = λ j q. ground (arith, h);
}

-- The loop ends in `s'`, by a `break` or by `return -1`.
abbrev Ends : Outcome → State → Type 0
Ends o s' = (o ≡ done s') ⊎ (o ≡ bad s')

loop-Appends :
    (big : Bool) (fuel : ℕ) (s s' : State)
    → s.next_offset ≤ dict_size
    → Ends (loop big fuel s) s'
    → Appends s s'
unfolding loop
loop-Appends big zero s s' p e = ground arith
loop-Appends big (suc fuel) s s' p e = elim (Round-cases (round big s)) [
  | inl (t, e1) ↦
      let a = (round-Advances big s t e1).appends in
      Appends-chain s t s' a (loop-Appends big fuel t s' a.upper (ground (arith, e1, e)))
  | inr (inl (t, e1)) ↦
      subst (Appends s) (ground (arith, e1, e)) (Appends-still s t p (round_finish big s t e1))
  | inr (inr (inl e1)) ↦
      subst (Appends s) (ground (arith, e1, e)) (Appends-still s s p (refl, refl))
  | inr (inr (inr e1)) ↦ ground (arith, e1, e)
]

prepared_roff : (ctype : ℕ) (d : Dict) → d.roff ≤ dict_size → (prepare ctype d).roff ≤ dict_size
unfolding prepare
prepared_roff ctype d p = ground arith

-- A call on compressed data returned `roff`, `rlen` and `d'`, from the dictionary `p` that the flags prepared.
pub record Window (p : Dict) (roff rlen : ℕ) (d' : Dict) : Type 0 where
  pub begins : roff ≡ p.roff
  pub inside : roff + rlen ≤ dict_size
  pub advanced : d'.roff ≡ roff + rlen
  pub before : (j : ℕ) → j < roff → d'.hist j ≡ p.hist j
  pub after : (j : ℕ) → roff + rlen ≤ j → d'.hist j ≡ p.hist j

-- The decompression of any octets, with any flags and from any dictionary, ends: the fuel of eight
-- rounds for an octet and one more is never used up.
pub mppc_expand_ends : (bs : List ℕ) (ctype : ℕ) (d : Dict) → mppc_expand bs ctype d ≢ endless
unfolding mppc_expand conclude
mppc_expand_ends bs ctype d e =
    let d' = prepare ctype d in
    ground
      (arith, loop_ends (not (bit_and ctype 0x01 == 0)) (fuel_for bs) (start d' bs) (omega arith))

window :
    (p d' : Dict) (bs : List ℕ) (s : State) (roff rlen : ℕ)
    → Appends (start p bs) s
    → conclude p (done s) ≡ expanded roff rlen d'
    → Window p roff rlen d'
unfolding conclude
window p d' bs s roff rlen a e = record {
  begins = ground arith;
  inside = ground (arith, a.lower, a.upper);
  advanced = ground (arith, a.lower);
  before = λ j q. ground (arith, a.before j);
  after = λ j q. ground (arith, a.lower, a.after j);
}

still :
    (p d' : Dict) (roff rlen : ℕ)
    → p.roff ≤ dict_size
    → expanded p.roff 0 p ≡ expanded roff rlen d'
    → Window p roff rlen d'
still p d' roff rlen q e = record {
  begins = ground arith;
  inside = ground arith;
  advanced = ground arith;
  before = λ j q. ground arith;
  after = λ j q. ground arith;
}

conclude-Window :
    (p d' : Dict) (bs : List ℕ) (o : Outcome) (roff rlen : ℕ)
    → ((s : State) → o ≡ done s → Appends (start p bs) s)
    → conclude p o ≡ expanded roff rlen d'
    → Window p roff rlen d'
unfolding conclude
conclude-Window p d' bs (done s) roff rlen a e = window p d' bs s roff rlen (a s refl) e
conclude-Window p d' bs (bad s) roff rlen a e = ground arith
conclude-Window p d' bs crash roff rlen a e = ground arith
conclude-Window p d' bs out_of_fuel roff rlen a e = ground arith

refusal :
    (p d' : Dict) (bs : List ℕ) (o : Outcome) (roff rlen : ℕ)
    → ((s : State) → o ≡ bad s → Appends (start p bs) s)
    → conclude p o ≡ failed roff rlen d'
    → (rlen ≡ 0) × (roff ≡ p.roff) × (d'.roff ≡ roff) × ((j : ℕ) → j < roff → d'.hist j ≡ p.hist j)
unfolding conclude
refusal p d' bs (done s) roff rlen a e = ground arith
refusal p d' bs (bad s) roff rlen a e =
    let a' = a s refl in
    (ground arith, ground arith, ground arith, λ j q. ground (arith, a'.before j))
refusal p d' bs crash roff rlen a e = ground arith
refusal p d' bs out_of_fuel roff rlen a e = ground arith

-- From a dictionary whose end is inside the history, a successful decompression of compressed data
-- gives a window that starts at the end the flags left, lies inside the history, becomes its new
-- end, and is the only part of the history that changed.
pub mppc_expand-Window :
    (bs : List ℕ) (ctype : ℕ) (d d' : Dict) (roff rlen : ℕ)
    → d.roff ≤ dict_size
    → bit_and ctype 0x20 ≢ 0
    → mppc_expand bs ctype d ≡ expanded roff rlen d'
    → Window (prepare ctype d) roff rlen d'
unfolding mppc_expand
mppc_expand-Window bs ctype d d' roff rlen p c e =
    let q = prepare ctype d in
    let big = not (bit_and ctype 0x01 == 0) in
    elim (Bool-cases (length bs == 0)) [
      | inl z ↦ still q d' roff rlen (prepared_roff ctype d p) (ground (arith, z, e))
      | inr z ↦
          conclude-Window q d' bs (loop big (fuel_for bs) (start q bs)) roff rlen
            (λ s f. loop-Appends big (fuel_for bs) (start q bs) s (prepared_roff ctype d p) (inl f))
            (ground (arith, z, e))
    ]

-- The end and the history that the flags leave, where there is an end that is not 0.
prepare-kept :
    (ctype : ℕ) (d : Dict)
    → ((prepare ctype d).roff
        ≡ (if (bit_and ctype 0x40 == 0) && (bit_and ctype 0x80 == 0) then d.roff else 0))
      × ((j : ℕ) → j < (prepare ctype d).roff → (prepare ctype d).hist j ≡ d.hist j)
unfolding prepare
prepare-kept ctype d = (ground arith, λ j q. ground arith)

-- A decompression that is refused, from a dictionary whose end is not behind its octets, tells its
-- caller of no octet and leaves the end where it was, or at 0 where the flags ask for a reset or a
-- flush, with every octet below that end unchanged.
pub mppc_expand_failed :
    (bs : List ℕ) (ctype : ℕ) (d d' : Dict) (roff rlen : ℕ)
    → d.roff ≤ dict_size
    → mppc_expand bs ctype d ≡ failed roff rlen d'
    → (rlen ≡ 0)
      × (roff ≡ (if (bit_and ctype 0x40 == 0) && (bit_and ctype 0x80 == 0) then d.roff else 0))
      × (d'.roff ≡ roff)
      × ((j : ℕ) → j < roff → d'.hist j ≡ d.hist j)
unfolding mppc_expand
mppc_expand_failed bs ctype d d' roff rlen p e =
    let q = prepare ctype d in
    let big = not (bit_and ctype 0x01 == 0) in
    let (told, start_lem, end_lem, same) =
      refusal q d' bs (loop big (fuel_for bs) (start q bs)) roff rlen
        (λ s f. loop-Appends big (fuel_for bs) (start q bs) s (prepared_roff ctype d p) (inr f))
        (ground (arith, e)) in
    let (kept, below) = prepare-kept ctype d in
    (told, start_lem ∙ kept, end_lem, λ j h. same j h ∙ below j (subst (λ k. j < k) start_lem h))
