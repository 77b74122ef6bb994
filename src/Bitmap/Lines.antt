-- ===== src/Bitmap/Lines.antt =====
-- The lines of a run in source/bitmap.c stay inside the output and end.
use rdesktopce_rdp.Prelude.{
  ℕ, zero, suc, ◌+◌, ◌-◌, ◌*◌, ◌≤◌, ◌<◌, ◌≡◌, ◌⊎◌, inl, inr, refl, sym, ap, ◌∙◌, false, Option,
  none, some, ltb, ◌==◌, if◌then◌else◌, length, arith, Bool-cases,
}
use rdesktopce_rdp.Bitmap.{Outcome, ok, refused, overread, outside, exhausted, Decoder, D}
use rdesktopce_rdp.Bitmap.Run.{statement, repeat, next_line, insert_mix, draw, segment, output_run}
use rdesktopce_rdp.Bitmap.Bounds.{Safe, bind-Safe, AllDraw, statement-AllDraw}
use rdesktopce_rdp.Bitmap.Loops.{Open, Along, Full, insert_mix-Along, repeat-Along, along}

module _ (W H : ℕ) where
  -- Between two runs: at the end of a line, or on it, or before the first.
  pub record Standing (d : Decoder) : Type 0 where
    pub size : length d.output ≡ H * W
    pub top : d.height ≤ H
    pub place : ((d.line ≡ none) × (d.x ≡ W)) ⊎ Open W H 0 d

  -- How many lines may still be drawn on.
  abbrev pub lines_left : Decoder → ℕ
  lines_left d = if ltb d.x W then d.height + 1 else d.height

  record Lined (d e : Decoder) : Type 0 where
    ready : Open W H 1 e
    less : e.height + 1 ≤ lines_left d
    used_on : d.used ≤ e.used

  next_line-Lined : (d : Decoder) → 0 < W → Standing d → Safe (λ _ e. Lined d e) (next_line W d)
  unfolding next_line
  next_line-Lined d wide s = elim s.place [
    | inl (l, x_lem) ↦ ground (arith, l, x_lem, s.size, s.top)
    | inr r ↦ elim (Bool-cases (ltb d.x W)) [
      | inl e ↦ rw e (record {
        ready = record {
          at = r.at;
          inside = r.inside;
          room = ground (arith, e);
          before = r.before;
          size = r.size;
        };
        less = ground (arith, e);
        used_on = omega arith;
      })
      | inr e ↦ elim (Bool-cases (d.height == 0)) [
        | inl z ↦ rw (e, z) tt
        | inr z ↦
            let above_lem : suc (d.height - 1) ≡ d.height = ground (arith, z) in
            rw (e, z)
              (record {
                ready = record {
                  at = refl;
                  inside = omega (arith, r.inside);
                  room = omega (arith, wide);
                  before = inr (
                    r.at ∙ ap (λ v. some (v * W)) (sym above_lem),
                    omega (arith, above_lem, r.inside),
                  );
                  size = r.size;
                };
                less = ground (arith, e, z);
                used_on = omega arith;
              })
      ]
    ]
  ]

  -- A segment of a run uses up a line, or ends the run.
  record Drawn (d e : Decoder) : Type 0 where
    still : Open W H 0 e
    full : Full W H e
    less : e.height + 1 ≤ lines_left d
    used_on : d.used ≤ e.used

  from_line : (d e f : Decoder) → Lined d e → Along W H e f × Full W H f → Drawn d f
  from_line d e f l (s, full) = record {
    still = s.still;
    full = full;
    less = omega (arith, l.less, s.moved.height_same);
    used_on = omega (arith, l.used_on, s.moved.used_on);
  }

  draw-Safe :
      (o : Option (D (Unit {0}))) (opcode : ℕ) (e : Decoder)
      → AllDraw W H o
      → Open W H 1 e
      → Safe (λ _ f. Along W H e f × Full W H f) (draw W opcode o e)
  unfolding draw
  draw-Safe none opcode e h r = tt
  draw-Safe (some st) opcode e h r =
      bind-Safe (λ _ f. Along W H e f × Unit {0}) (λ _ f. Along W H e f × Full W H f)
        (insert_mix opcode e) _ (insert_mix-Along W H opcode e r)
        (λ _ f (s, _).
          along W H (Full W H) s.far e f (repeat W st f) s.moved (repeat-Along W H st f h s.still))

  pub Safe-map :
      {P Q : Decoder → Type 0} (o : Outcome (Unit {0} × Decoder))
      → ((e : Decoder) → P e → Q e)
      → Safe (λ _ e. P e) o
      → Safe (λ _ e. Q e) o
  Safe-map (ok (_, e)) h p = h e p
  Safe-map refused h p = tt
  Safe-map overread h p = tt
  Safe-map outside h p = p
  Safe-map exhausted h p = p

  segment-Drawn :
      (bpp opcode : ℕ) (d : Decoder)
      → 0 < W
      → Standing d
      → Safe (λ _ e. Drawn d e) (segment bpp W opcode d)
  unfolding segment
  segment-Drawn bpp opcode d wide s =
      bind-Safe (λ _ e. Lined d e) (λ _ e. Drawn d e) (next_line W d) _ (next_line-Lined d wide s)
        (λ _ e l.
          Safe-map (draw W opcode (statement bpp opcode) e) (λ f. from_line d e f l)
            (draw-Safe (statement bpp opcode) opcode e (statement-AllDraw W H bpp opcode) l.ready))

  -- A run keeps to the output, and ends within a round for each line that is left and two more.
  pub record Ran (d e : Decoder) : Type 0 where
    pub standing : Standing e
    pub used_on : d.used ≤ e.used

  Drawn-Standing : (d e : Decoder) → Drawn d e → Standing e
  Drawn-Standing d e s = record {
    size = s.still.size;
    top = omega (arith, s.still.inside);
    place = inr s.still;
  }

  run_over :
      (fuel bpp opcode : ℕ) (d : Decoder)
      → 0 < fuel
      → d.count ≡ 0
      → Standing d
      → Safe (λ _ e. Ran d e) (output_run fuel bpp W opcode d)
  unfolding output_run
  run_over zero bpp opcode d some_fuel over s = absurd (omega arith)
  run_over (suc fuel) bpp opcode d some_fuel over s =
      let none_left : ltb 0 d.count ≡ false = ground (arith, over) in
      rw none_left (record { standing = s; used_on = omega arith })

  pub output_run-Ran :
      (fuel bpp opcode : ℕ) (d : Decoder)
      → 0 < W
      → Standing d
      → lines_left d < fuel
      → Safe (λ _ e. Ran d e) (output_run fuel bpp W opcode d)
  unfolding output_run
  output_run-Ran zero bpp opcode d wide s enough = absurd (omega arith)
  output_run-Ran (suc fuel) bpp opcode d wide s enough = elim (Bool-cases (ltb 0 d.count)) [
    | inr e ↦ rw e (record { standing = s; used_on = omega arith })
    | inl e ↦ rw e (
        bind-Safe (λ _ e. Drawn d e) (λ _ e. Ran d e) (segment bpp W opcode d) _
          (segment-Drawn bpp opcode d wide s)
          (λ _ e p.
            Safe-map (output_run fuel bpp W opcode e)
              (λ f (q : Ran e f). record {
                standing = q.standing;
                used_on = omega (arith, p.used_on, q.used_on);
              })
              (elim p.full [
                | inl z ↦
                    run_over fuel bpp opcode e (omega (arith, p.less)) z (Drawn-Standing d e p)
                | inr z ↦
                    output_run-Ran fuel bpp opcode e wide (Drawn-Standing d e p)
                      (ground (arith, z, p.less))
              ])))
  ]
