-- ===== src/Bitmap/Bounds.antt =====
-- The decoders of source/bitmap.c stay inside the output: rules for the actions of one statement.
use rdesktopce_rdp.Prelude.{
  on, ℕ, zero, suc, ◌+◌, ◌*◌, ◌≤◌, ◌<◌, ◌≡◌, ◌⊎◌, inl, inr, refl, sym, ap, subst, ◌∙◌, Bool, true,
  false, Option, none, some, ◌∷◌, ◌==◌, if◌then◌else◌, set, length, length-set, get_elem?-lt, arith,
  replicate,
}
use rdesktopce_rdp.Bitmap.{
  Outcome, ok, refused, overread, outside, exhausted, Pixel, Decoder, D, pure, bind, ◌>>=◌, ◌>>◌,
  gets, modify, cval, in_pixel, put_pixel, above, xor_pixel,
}
use rdesktopce_rdp.Bitmap.Run.{
  mask_update, put_mixed, put_above, put_masked, put_bicolour, put_copied, put_colour, statement,
}

-- No access outside the output, and what holds of a result.
abbrev pub Safe : {A : Type 0} → (A → Decoder → Type 0) → Outcome (A × Decoder) → Type 0
Safe Q (ok (a, d)) = Q a d
Safe Q refused = Unit {0}
Safe Q overread = Unit {0}
Safe Q outside = ⊥
Safe Q exhausted = ⊥

pub bind-Safe :
    {A B : Type 0} (P : A → Decoder → Type 0) (Q : B → Decoder → Type 0) (o : Outcome (A × Decoder))
    (f : A → D B)
    → Safe P o
    → ((a : A) (d : Decoder) → P a d → Safe Q (f a d))
    → Safe Q (bind o f)
bind-Safe P Q (ok (a, d)) f h k = k a d h
bind-Safe P Q refused f h k = tt
bind-Safe P Q overread f h k = tt
bind-Safe P Q outside f h k = h
bind-Safe P Q exhausted f h k = h

-- The place of the drawing does not move, and the input is only read on.
pub record Same (d d' : Decoder) : Type 0 where
  pub x_same : d'.x ≡ d.x
  pub height_same : d'.height ≡ d.height
  pub line_same : d'.line ≡ d.line
  pub prevline_same : d'.prevline ≡ d.prevline
  pub size_same : length d'.output ≡ length d.output
  pub used_on : d.used ≤ d'.used
  pub count_up : d.count ≤ d'.count

pub same_refl : (d : Decoder) → Same d d
same_refl d = record {
  x_same = refl;
  height_same = refl;
  line_same = refl;
  prevline_same = refl;
  size_same = refl;
  used_on = omega arith;
  count_up = omega arith;
}

pub same_trans : (a b c : Decoder) → Same a b → Same b c → Same a c
same_trans a b c p q = record {
  x_same = q.x_same ∙ p.x_same;
  height_same = q.height_same ∙ p.height_same;
  line_same = q.line_same ∙ p.line_same;
  prevline_same = q.prevline_same ∙ p.prevline_same;
  size_same = q.size_same ∙ p.size_same;
  used_on = omega (arith, p.used_on, q.used_on);
  count_up = omega (arith, p.count_up, q.count_up);
}

-- The same from the start of an action, whichever variables it has set.
pub Safe-trans :
    {A : Type 0} (a b : Decoder) (o : Outcome (A × Decoder))
    → Same a b
    → Safe (λ _ d. Same b d) o
    → Safe (λ _ d. Same a d) o
Safe-trans a b (ok (r, d)) p q = same_trans a b d p q
Safe-trans a b refused p q = tt
Safe-trans a b overread p q = tt
Safe-trans a b outside p q = q
Safe-trans a b exhausted p q = q

pub then_Same :
    {A B : Type 0} (d : Decoder) (m : D A) (f : A → D B)
    → Safe (λ _ e. Same d e) (m d)
    → ((a : A) (e : Decoder) → Same d e → Safe (λ _ e'. Same e e') (f a e))
    → Safe (λ _ e. Same d e) (bind (m d) f)
then_Same d m f h k =
    bind-Safe (λ _ e. Same d e) (λ _ e. Same d e) (m d) f h
      (λ a e s. Safe-trans d e (f a e) s (k a e s))

pub cval-Safe : (d : Decoder) → Safe (λ _ e. Same d e) (cval d)
unfolding cval
cval-Safe d = ground arith

pub in_pixel-Safe : (n : ℕ) (d : Decoder) → Safe (λ _ e. Same d e) (in_pixel n d)
unfolding in_pixel
in_pixel-Safe zero d = same_refl d
in_pixel-Safe (suc n) d =
    then_Same d cval (λ b. in_pixel n >>= λ p. pure (b ∷ p)) (cval-Safe d)
      (λ b e s.
        then_Same e (in_pixel n) (λ p. pure (b ∷ p)) (in_pixel-Safe n e) (λ p e' s'. same_refl e'))

pub mask_update-Safe : (d : Decoder) → Safe (λ _ e. Same d e) (mask_update d)
unfolding mask_update cval
mask_update-Safe d = ground arith

-- There is a line to draw on, and room in it.
pub record Ready (W H : ℕ) (d : Decoder) : Type 0 where
  pub at : d.line ≡ some (d.height * W)
  pub inside : d.height < H
  pub room : d.x < W
  pub before : (d.prevline ≡ none) ⊎ (d.prevline ≡ some (suc d.height * W)) × (suc d.height < H)
  pub size : length d.output ≡ H * W

index_in_range : (r c W H : ℕ) → r < H → c < W → r * W + c < H * W
index_in_range r c W H p q = grind arith

put_pixel-Safe :
    (W H : ℕ) (p : Pixel) (d : Decoder) → Ready W H d → Safe (λ _ e. Same d e) (put_pixel p d)
unfolding put_pixel
put_pixel-Safe W H p d r = ground (
  arith,
  r.at,
  r.size,
  index_in_range d.height d.x W H r.inside r.room,
  length-set d.output (d.height * W + d.x) p,
)

above-Safe : (W H : ℕ) (d : Decoder) → Ready W H d → Safe (λ _ e. Same d e) (above d)
unfolding above
above-Safe W H d r = elim r.before [
  | inl e ↦ ground (arith, e)
  | inr (e, inside) ↦
      let inside_lem : suc d.height * W + d.x < length d.output =
        subst (λ n. suc d.height * W + d.x < n) (sym r.size)
          (index_in_range (suc d.height) d.x W H inside r.room) in
      let (pixel, found) = get_elem?-lt d.output (suc d.height * W + d.x) inside_lem in
      ground (arith, e, found)
]

Same-Ready : (W H : ℕ) (d e : Decoder) → Same d e → Ready W H d → Ready W H e
Same-Ready W H d e s r = record {
  at = s.line_same ∙ r.at ∙ ap (λ n. some (n * W)) (sym s.height_same);
  inside = omega (arith, s.height_same, r.inside);
  room = omega (arith, s.x_same, r.room);
  before = elim r.before [
    | inl p ↦ inl (s.prevline_same ∙ p)
    | inr (p, b) ↦ inr (
      s.prevline_same ∙ p ∙ ap (λ n. some (suc n * W)) (sym s.height_same),
      omega (arith, s.height_same, b),
    )
  ];
  size = s.size_same ∙ r.size;
}

-- What a statement does where it can be drawn.
pub record Draws (W H : ℕ) (st : D (Unit {0})) : Type 0 where
  pub run : (d : Decoder) → Ready W H d → Safe (λ _ e. Same d e) (st d)

module _ (W H : ℕ) where
  put_over :
      (d : Decoder) (over : Option Pixel → Pixel)
      → Ready W H d
      → Safe (λ _ e. Same d e) (bind (above d) (λ up. put_pixel (over up)))
  put_over d over r =
      then_Same d above (λ up. put_pixel (over up)) (above-Safe W H d r)
        (λ up e s. put_pixel-Safe W H (over up) e (Same-Ready W H d e s r))

  pub put_mixed-Draws : Draws W H put_mixed
  unfolding put_mixed
  put_mixed-Draws = record {
    run = λ d r. put_over d (λ up. elim up [ none ↦ d.mix | some p ↦ xor_pixel p d.mix ]) r;
  }

  put_above-Draws : (bpp : ℕ) → Draws W H (put_above bpp)
  unfolding put_above
  put_above-Draws bpp = record {
    run = λ d r. put_over d (λ up. elim up [ none ↦ replicate bpp 0 | some p ↦ p ]) r;
  }

  put_masked-Draws : (bpp : ℕ) → Draws W H (put_masked bpp)
  unfolding put_masked
  put_masked-Draws bpp = record {
    run = λ d r.
        then_Same d mask_update _ (mask_update-Safe d)
          (λ _ e s. choose (on e.mask e.mixmask) e (Same-Ready W H d e s r));
  }
    where
      choose :
          (b : Bool) (e : Decoder)
          → Ready W H e
          → Safe (λ _ e'. Same e e') ((if b then put_mixed else put_above bpp) e)
      choose true e r = put_mixed-Draws.run e r
      choose false e r = (put_above-Draws bpp).run e r

  put_then :
      (d : Decoder) (p : Pixel) (set : Decoder → Decoder)
      → ((e : Decoder) → Same e (set e))
      → Ready W H d
      → Safe (λ _ e. Same d e) (bind (put_pixel p d) (λ _. modify set))
  put_then d p set h r =
      then_Same d (put_pixel p) (λ _. modify set) (put_pixel-Safe W H p d r) (λ _ e s. h e)

  put_bicolour-Draws : Draws W H put_bicolour
  unfolding put_bicolour
  put_bicolour-Draws = record { run = λ d r. choose d.bicolour d r }
    where
      first : D (Unit {0})
      first = do
        colour1 ← gets (λ d. d.colour1)
        put_pixel colour1
        modify (λ d. record d { bicolour = true; count = d.count + 1 })

      second : D (Unit {0})
      second = do
        colour2 ← gets (λ d. d.colour2)
        put_pixel colour2
        modify (λ d. record d { bicolour = false })

      choose :
          (b : Bool) (d : Decoder)
          → Ready W H d
          → Safe (λ _ e. Same d e) ((if b then second else first) d)
      choose true d r = put_then d d.colour2 _ (λ e. ground arith) r
      choose false d r = put_then d d.colour1 _ (λ e. ground arith) r

  put_copied-Draws : (bpp : ℕ) → Draws W H (put_copied bpp)
  unfolding put_copied
  put_copied-Draws bpp = record {
    run = λ d r.
        then_Same d (in_pixel bpp) put_pixel (in_pixel-Safe bpp d)
          (λ p e s. put_pixel-Safe W H p e (Same-Ready W H d e s r));
  }

  put_colour-Draws : Draws W H put_colour
  unfolding put_colour
  put_colour-Draws = record { run = λ d r. put_pixel-Safe W H d.colour2 d r }

  -- The statement of an opcode, if there is one.
  abbrev pub AllDraw : Option (D (Unit {0})) → Type 0
  AllDraw none = Unit {0}
  AllDraw (some st) = Draws W H st

  case_of :
      (b : Bool) (o o' : Option (D (Unit {0})))
      → AllDraw o
      → AllDraw o'
      → AllDraw (if b then o else o')
  case_of true o o' p q = p
  case_of false o o' p q = q

  put_pixel-Draws : (p : Pixel) → Draws W H (put_pixel p)
  put_pixel-Draws p = record { run = λ d r. put_pixel-Safe W H p d r }

  pub statement-AllDraw : (bpp opcode : ℕ) → AllDraw (statement bpp opcode)
  unfolding statement
  statement-AllDraw bpp opcode = case_of (opcode == 0) _ _ (put_above-Draws bpp) (
      case_of (opcode == 1) _ _ put_mixed-Draws (
        case_of (opcode == 2) _ _ (put_masked-Draws bpp) (
          case_of (opcode == 3) _ _ put_colour-Draws (
            case_of (opcode == 4) _ _ (put_copied-Draws bpp) (
              case_of (opcode == 8) _ _ put_bicolour-Draws (
                case_of (opcode == 0xd) _ _ (put_pixel-Draws _)
                  (case_of (opcode == 0xe) _ _ (put_pixel-Draws _) tt)))))))
