-- ===== src/Bitmap/Unroll.antt =====
-- The loop of REPEAT that is unrolled by eight makes no difference.
use rdesktopce_rdp.Prelude.{
  ℕ, zero, suc, ◌+◌, ◌≤◌, ◌<◌, ◌≡◌, refl, sym, ap, subst, ◌∙◌, true, some, ltb, leb, ◌&&◌, arith,
  Bool-cases, inl, inr,
}
use rdesktopce_rdp.Bitmap.{
  Outcome, ok, refused, overread, outside, exhausted, Decoder, D, bind, ◌>>=◌,
}
use rdesktopce_rdp.Bitmap.Run.{once, times, by_eight, by_one, repeat, statement}
use rdesktopce_rdp.Bitmap.Bounds.{Safe, Draws, AllDraw, statement-AllDraw}
use rdesktopce_rdp.Bitmap.Loops.{Moved, Open, Moved-Open, Open-Ready, once-Moved, times-Moved}

bind_agree :
    (P : Unit {0} → Decoder → Type 0) (o : Outcome (Unit {0} × Decoder))
    (f g : Unit {0} → D (Unit {0}))
    → Safe P o
    → ((a : Unit {0}) (e : Decoder) → P a e → f a e ≡ g a e)
    → bind o f ≡ bind o g
bind_agree P (ok (a, e)) f g h k = k a e h
bind_agree P refused f g h k = refl
bind_agree P overread f g h k = refl
bind_agree P outside f g h k = refl
bind_agree P exhausted f g h k = refl

bind_assoc :
    (o : Outcome (Unit {0} × Decoder)) (f g : Unit {0} → D (Unit {0}))
    → bind (bind o f) g ≡ bind o (λ a. f a >>= g)
bind_assoc (ok (a, e)) f g = refl
bind_assoc refused f g = refl
bind_assoc overread f g = refl
bind_assoc outside f g = refl
bind_assoc exhausted f g = refl

sum_suc : (m n : ℕ) → suc m + n ≡ suc (m + n)
sum_suc m n = omega arith

module _ (W H : ℕ) (st : D (Unit {0})) (h : Draws W H st) where
  -- `n` steps of the simple loop, where the run and the line have as many left.
  by_one-times :
      (n fuel : ℕ) (d : Decoder)
      → Open W H n d
      → n ≤ d.count
      → by_one (n + fuel) W st d ≡ bind (times n st d) (λ _. by_one fuel W st)
  unfolding times by_one
  by_one-times zero fuel d r enough = ap (λ k. by_one k W st d) (omega arith)
  by_one-times (suc n) fuel d r enough =
      let more_lem : (ltb 0 d.count && ltb d.x W) ≡ true = ground (arith, r.room) in
      ap (λ k. by_one k W st d) (sum_suc n fuel)
      ∙ rw more_lem (
          bind_agree (λ _ e. Moved 1 d e) (once st d) (λ _. by_one (n + fuel) W st)
            (λ _ e. bind (times n st e) (λ _. by_one fuel W st))
            (once-Moved W H st d h (Open-Ready W H n d r))
            (λ _ e s.
              by_one-times n fuel e (Moved-Open W H 1 n (suc n) d e (omega arith) s r)
                (omega (arith, s.count_down)))
          ∙ sym (bind_assoc (once st d) (λ _. times n st) (λ _. by_one fuel W st)))

  -- More fuel than the line has room for is as good as any other.
  by_one_enough :
      (fuel fuel' : ℕ) (d : Decoder)
      → Open W H 0 d
      → W < fuel + d.x
      → W < fuel' + d.x
      → by_one fuel W st d ≡ by_one fuel' W st d
  unfolding by_one
  by_one_enough zero fuel' d r p q = absurd (omega (arith, r.room))
  by_one_enough (suc fuel) zero d r p q = absurd (omega (arith, r.room))
  by_one_enough (suc fuel) (suc fuel') d r p q = elim (Bool-cases (ltb 0 d.count && ltb d.x W)) [
    | inr e ↦ rw e refl
    | inl e ↦
        let room_lem : d.x + 1 ≤ W = ground (arith, e) in
        let r1 : Open W H 1 d = ground (arith, r.at, r.inside, room_lem, r.before, r.size) in
        rw e (
          bind_agree (λ _ f. Moved 1 d f) (once st d) (λ _. by_one fuel W st)
            (λ _. by_one fuel' W st) (once-Moved W H st d h (Open-Ready W H 0 d r1))
            (λ _ f s.
              by_one_enough fuel fuel' f (Moved-Open W H 1 0 1 d f refl s r1)
                (omega (arith, s.x_on)) (omega (arith, s.x_on))))
  ]

  by_eight_lem :
      (fuel : ℕ) (d : Decoder)
      → Open W H 0 d
      → W < fuel + d.x
      → bind (by_eight fuel W st d) (λ _. by_one (W + 1) W st) ≡ by_one (W + 1) W st d
  unfolding by_eight
  by_eight_lem zero d r enough = absurd (omega (arith, r.room))
  by_eight_lem (suc fuel) d r enough = elim (Bool-cases (leb 8 d.count && ltb (d.x + 8) W)) [
    | inr e ↦ rw e refl
    | inl e ↦
        let room_lem : d.x + 8 ≤ W = ground (arith, e) in
        let count_lem : 8 ≤ d.count = ground (arith, e) in
        let r8 : Open W H 8 d = ground (arith, r.at, r.inside, room_lem, r.before, r.size) in
        let times_lem = times-Moved W H 8 st d h r8 in
        rw e (
          bind_assoc (times 8 st d) (λ _. by_eight fuel W st) (λ _. by_one (W + 1) W st)
          ∙ bind_agree (λ _ f. Moved 8 d f) (times 8 st d)
              (λ _. by_eight fuel W st >>= λ _. by_one (W + 1) W st) (λ _. by_one (W + 1) W st)
              times_lem
              (λ _ f s.
                by_eight_lem fuel f (Moved-Open W H 8 0 8 d f refl s r8) (omega (arith, s.x_on)))
          ∙ sym (by_one-times 8 (W + 1) d r8 count_lem)
          ∙ by_one_enough (8 + (W + 1)) (W + 1) d r (omega arith) (omega arith))
  ]

  simple : (d : Decoder) → Open W H 0 d → repeat W st d ≡ by_one (W + 1) W st d
  unfolding repeat
  simple d r = by_eight_lem (W + 1) d r (omega arith)

-- For the statement of any opcode, on a decoder that stands on a line of the output, the loop of
-- REPEAT that is unrolled by eight, followed by the simple one, has the outcome of the simple one
-- alone.
pub repeat-by_one :
    (W H bpp opcode : ℕ) (st : D (Unit {0})) (d : Decoder)
    → statement bpp opcode ≡ some st
    → Open W H 0 d
    → repeat W st d ≡ by_one (W + 1) W st d
repeat-by_one W H bpp opcode st d e r =
    simple W H st (subst (AllDraw W H) e (statement-AllDraw W H bpp opcode)) d r
