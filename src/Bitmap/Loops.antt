-- ===== src/Bitmap/Loops.antt =====
-- The loops of source/bitmap.c over the pixels of a run stay inside the output and end.
use rdesktopce_rdp.Prelude.{
  ℕ, zero, suc, ◌+◌, ◌*◌, ◌≤◌, ◌<◌, ◌≡◌, ◌⊎◌, inl, inr, refl, sym, ap, ◌∙◌, none, some, ltb, leb,
  ◌==◌, ◌&&◌, length, arith, Bool-cases,
}
use rdesktopce_rdp.Bitmap.{Outcome, ok, refused, overread, outside, exhausted, Decoder, D}
use rdesktopce_rdp.Bitmap.Run.{put_mixed, once, times, by_eight, by_one, repeat, insert_mix}
use rdesktopce_rdp.Bitmap.Bounds.{Safe, bind-Safe, Same, Ready, Draws, put_mixed-Draws}

-- The drawing is `n` pixels further on its line.
pub record Moved (n : ℕ) (d e : Decoder) : Type 0 where
  pub x_on : e.x ≡ d.x + n
  pub height_same : e.height ≡ d.height
  pub line_same : e.line ≡ d.line
  pub prevline_same : e.prevline ≡ d.prevline
  pub size_same : length e.output ≡ length d.output
  pub used_on : d.used ≤ e.used
  pub count_down : d.count ≤ e.count + n

moved_trans : (m n k : ℕ) (a b c : Decoder) → m + n ≡ k → Moved m a b → Moved n b c → Moved k a c
moved_trans m n k a b c h p q = record {
  x_on = omega (arith, p.x_on, q.x_on);
  height_same = q.height_same ∙ p.height_same;
  line_same = q.line_same ∙ p.line_same;
  prevline_same = q.prevline_same ∙ p.prevline_same;
  size_same = q.size_same ∙ p.size_same;
  used_on = omega (arith, p.used_on, q.used_on);
  count_down = omega (arith, p.count_down, q.count_down);
}

moved_refl : (d : Decoder) → Moved 0 d d
moved_refl d = ground arith

-- There is a line, with room for `n` pixels.
pub record Open (W H n : ℕ) (d : Decoder) : Type 0 where
  pub at : d.line ≡ some (d.height * W)
  pub inside : d.height < H
  pub room : d.x + n ≤ W
  pub before : (d.prevline ≡ none) ⊎ (d.prevline ≡ some (suc d.height * W)) × (suc d.height < H)
  pub size : length d.output ≡ H * W

module _ (W H : ℕ) where
  pub Moved-Open :
      (m n k : ℕ) (d e : Decoder) → m + n ≡ k → Moved m d e → Open W H k d → Open W H n e
  Moved-Open m n k d e h s r = record {
    at = s.line_same ∙ r.at ∙ ap (λ v. some (v * W)) (sym s.height_same);
    inside = omega (arith, s.height_same, r.inside);
    room = omega (arith, s.x_on, r.room);
    before = elim r.before [
      | inl p ↦ inl (s.prevline_same ∙ p)
      | inr (p, b) ↦ inr (
        s.prevline_same ∙ p ∙ ap (λ v. some (suc v * W)) (sym s.height_same),
        omega (arith, s.height_same, b),
      )
    ];
    size = s.size_same ∙ r.size;
  }

  pub Open-Ready : (n : ℕ) (d : Decoder) → Open W H (suc n) d → Ready W H d
  Open-Ready n d r = record {
    at = r.at;
    inside = r.inside;
    room = omega (arith, r.room);
    before = r.before;
    size = r.size;
  }

  less_room : (m n : ℕ) (d : Decoder) → n ≤ m → Open W H m d → Open W H n d
  less_room m n d h r = record {
    at = r.at;
    inside = r.inside;
    room = omega (arith, r.room);
    before = r.before;
    size = r.size;
  }

  pub once-Moved :
      (st : D (Unit {0})) (d : Decoder)
      → Draws W H st
      → Ready W H d
      → Safe (λ _ e. Moved 1 d e) (once st d)
  unfolding once
  once-Moved st d h r =
      bind-Safe (λ _ e. Same d e) (λ _ e. Moved 1 d e) (st d) _ (h.run d r)
        (λ _ e s. record {
          x_on = omega (arith, s.x_same);
          height_same = s.height_same;
          line_same = s.line_same;
          prevline_same = s.prevline_same;
          size_same = s.size_same;
          used_on = s.used_on;
          count_down = omega (arith, s.count_up);
        })

  Safe-further :
      (m n k : ℕ) (d e : Decoder) (o : Outcome (Unit {0} × Decoder))
      → m + n ≡ k
      → Moved m d e
      → Safe (λ _ f. Moved n e f) o
      → Safe (λ _ f. Moved k d f) o
  Safe-further m n k d e (ok (_, f)) h p q = moved_trans m n k d e f h p q
  Safe-further m n k d e refused h p q = tt
  Safe-further m n k d e overread h p q = tt
  Safe-further m n k d e outside h p q = q
  Safe-further m n k d e exhausted h p q = q

  pub times-Moved :
      (n : ℕ) (st : D (Unit {0})) (d : Decoder)
      → Draws W H st
      → Open W H n d
      → Safe (λ _ e. Moved n d e) (times n st d)
  unfolding times
  times-Moved zero st d h r = moved_refl d
  times-Moved (suc n) st d h r =
      bind-Safe (λ _ e. Moved 1 d e) (λ _ e. Moved (suc n) d e) (once st d) _
        (once-Moved st d h (Open-Ready n d r))
        (λ _ e s.
          Safe-further 1 n (suc n) d e (times n st e) (omega arith) s
            (times-Moved n st e h (Moved-Open 1 n (suc n) d e (omega arith) s r)))

  -- Further on the line, somewhere up to its end.
  pub record Along (d e : Decoder) : Type 0 where
    pub far : ℕ
    pub moved : Moved far d e
    pub still : Open W H 0 e

  pub along :
      (Q : Decoder → Type 0) (m : ℕ) (d e : Decoder) (o : Outcome (Unit {0} × Decoder))
      → Moved m d e
      → Safe (λ _ f. Along e f × Q f) o
      → Safe (λ _ f. Along d f × Q f) o
  along Q m d e (ok (_, f)) p (q, more) = (
    record {
      far = m + q.far;
      moved = moved_trans m q.far (m + q.far) d e f refl p q.moved;
      still = q.still;
    },
    more,
  )
  along Q m d e refused p q = tt
  along Q m d e overread p q = tt
  along Q m d e outside p q = q
  along Q m d e exhausted p q = q

  by_eight-Along :
      (fuel : ℕ) (st : D (Unit {0})) (d : Decoder)
      → Draws W H st
      → Open W H 0 d
      → W < fuel + d.x
      → Safe (λ _ e. Along d e × Unit {0}) (by_eight fuel W st d)
  unfolding by_eight
  by_eight-Along zero st d h r enough = absurd (omega (arith, r.room))
  by_eight-Along (suc fuel) st d h r enough = elim (Bool-cases (leb 8 d.count && ltb (d.x + 8) W)) [
    | inr e ↦ rw e (record { far = 0; moved = moved_refl d; still = r }, tt)
    | inl e ↦
        let room_lem : d.x + 8 ≤ W = ground (arith, e) in
        let r8 : Open W H 8 d = record {
          at = r.at;
          inside = r.inside;
          room = room_lem;
          before = r.before;
          size = r.size;
        } in
        rw e (
          bind-Safe (λ _ f. Moved 8 d f) (λ _ f. Along d f × Unit {0}) (times 8 st d) _
            (times-Moved 8 st d h r8)
            (λ _ f s.
              along (λ _. Unit {0}) 8 d f (by_eight fuel W st f) s
                (by_eight-Along fuel st f h (Moved-Open 8 0 8 d f refl s r8)
                  (omega (arith, s.x_on)))))
  ]

  -- The run is over, or the line.
  abbrev pub Full : Decoder → Type 0
  Full e = (e.count ≡ 0) ⊎ (e.x ≡ W)

  by_one-Along :
      (fuel : ℕ) (st : D (Unit {0})) (d : Decoder)
      → Draws W H st
      → Open W H 0 d
      → W < fuel + d.x
      → Safe (λ _ e. Along d e × Full e) (by_one fuel W st d)
  unfolding by_one
  by_one-Along zero st d h r enough = absurd (omega (arith, r.room))
  by_one-Along (suc fuel) st d h r enough = elim (Bool-cases (ltb 0 d.count && ltb d.x W)) [
    | inr e ↦ rw e (record { far = 0; moved = moved_refl d; still = r }, ground (arith, e, r.room))
    | inl e ↦
        let room_lem : d.x + 1 ≤ W = ground (arith, e) in
        let r1 : Open W H 1 d = record {
          at = r.at;
          inside = r.inside;
          room = room_lem;
          before = r.before;
          size = r.size;
        } in
        rw e (
          bind-Safe (λ _ f. Moved 1 d f) (λ _ f. Along d f × Full f) (once st d) _
            (once-Moved st d h (Open-Ready 0 d r1))
            (λ _ f s.
              along Full 1 d f (by_one fuel W st f) s (
                by_one-Along fuel st f h (Moved-Open 1 0 1 d f refl s r1) (omega (arith, s.x_on)))))
  ]

  pub repeat-Along :
      (st : D (Unit {0})) (d : Decoder)
      → Draws W H st
      → Open W H 0 d
      → Safe (λ _ e. Along d e × Full e) (repeat W st d)
  unfolding repeat
  repeat-Along st d h r =
      bind-Safe (λ _ e. Along d e × Unit {0}) (λ _ e. Along d e × Full e) (by_eight (W + 1) W st d)
        _ (by_eight-Along (W + 1) st d h r (omega arith))
        (λ _ e (s, _).
          along Full s.far d e (by_one (W + 1) W st e) s.moved
            (by_one-Along (W + 1) st e h s.still (omega arith)))

  pub insert_mix-Along :
      (opcode : ℕ) (d : Decoder)
      → Open W H 1 d
      → Safe (λ _ e. Along d e × Unit {0}) (insert_mix opcode d)
  unfolding insert_mix
  insert_mix-Along opcode d r = elim (Bool-cases ((opcode == 0) && d.insertmix)) [
    | inr e ↦
        rw e (record { far = 0; moved = moved_refl d; still = less_room 1 0 d (omega arith) r }, tt)
    | inl e ↦ rw e (
        bind-Safe (λ _ f. Moved 1 d f) (λ _ f. Along d f × Unit {0}) (once put_mixed d) _
          (once-Moved put_mixed d (put_mixed-Draws W H) (Open-Ready 0 d r))
          (λ _ f s.
            let still = Moved-Open 1 0 1 d f refl s r in
            (
              record {
                far = 1;
                moved = ground (
                  arith, s.x_on, s.height_same, s.line_same, s.prevline_same, s.size_same,
                  s.used_on, s.count_down,
                );
                still =
                    ground (arith, still.at, still.inside, still.room, still.before, still.size);
              },
              tt,
            )))
  ]
