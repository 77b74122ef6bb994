-- ===== src/Bitmap/Within.antt =====
-- The decoders of source/bitmap.c as a whole stay inside the output and end.
use rdesktopce_rdp.Prelude.{
  ℕ, zero, suc, ◌+◌, ◌*◌, ◌<◌, ◌≡◌, inl, inr, refl, ◌∙◌, Bool, true, false, ◌||◌, some, List, ltb,
  ◌==◌, if◌then◌else◌, length, arith, Bool-cases,
}
use rdesktopce_rdp.Bitmap.{
  Outcome, ok, refused, overread, outside, exhausted, Pixel, Decoder, D, cval, in_pixel,
}
use rdesktopce_rdp.Bitmap.Run.{output_run}
use rdesktopce_rdp.Bitmap.Rle.{
  in_opcode, in_count, in_preliminary, order, orders, start, output_of, decompress,
}
use rdesktopce_rdp.Bitmap.Bounds.{Safe, bind-Safe, Same, same_trans, then_Same, in_pixel-Safe}
use rdesktopce_rdp.Bitmap.Loops.{Moved-Open}
use rdesktopce_rdp.Bitmap.Lines.{Standing, Ran, output_run-Ran, Safe-map}

in_opcode-Safe : (code : ℕ) (d : Decoder) → Safe (λ _ e. Same d e) (in_opcode code d)
unfolding in_opcode cval
in_opcode-Safe code d = ground arith

in_count-Safe :
    (opcode count offset : ℕ) (d : Decoder)
    → Safe (λ _ e. Same d e) (in_count opcode count offset d)
unfolding in_count cval
in_count-Safe opcode count offset d = ground arith

case_of :
    (Q : ℕ → Decoder → Type 0) (b : Bool) (m k : D ℕ) (d : Decoder)
    → Safe Q (m d)
    → Safe Q (k d)
    → Safe Q ((if b then m else k) d)
case_of Q true m k d p q = p
case_of Q false m k d p q = q

in_preliminary-Safe :
    (bpp width opcode : ℕ) (d : Decoder)
    → Safe (λ _ e. Same d e) (in_preliminary bpp width opcode d)
unfolding in_preliminary
in_preliminary-Safe bpp width opcode d =
    let one_pixel = in_pixel-Safe bpp d in
    case_of (λ _ e. Same d e) (opcode == 0) _ _ d (ground arith)
      (case_of (λ _ e. Same d e) (opcode == 8) _ _ d
        (then_Same d (in_pixel bpp) _ one_pixel
          (λ p e s. then_Same e (in_pixel bpp) _ (in_pixel-Safe bpp e) (λ q f t. ground arith)))
        (case_of (λ _ e. Same d e) (opcode == 3) _ _ d
          (then_Same d (in_pixel bpp) _ one_pixel (λ p e s. ground arith))
          (case_of (λ _ e. Same d e) ((opcode == 6) || (opcode == 7)) _ _ d
            (then_Same d (in_pixel bpp) _ one_pixel (λ p e s. ground arith)) (ground arith))))

-- One order keeps to the output, and reads an octet at least.
record Further (W H : ℕ) (d e : Decoder) : Type 0 where
  standing : Standing W H e
  used_more : d.used < e.used

Same-Standing : (W H : ℕ) (d e : Decoder) → Same d e → Standing W H d → Standing W H e
Same-Standing W H d e s r = record {
  size = s.size_same ∙ r.size;
  top = omega (arith, s.height_same, r.top);
  place = elim r.place [
    | inl (l, x_lem) ↦ inl (s.line_same ∙ l, s.x_same ∙ x_lem)
    | inr o ↦ inr (
        Moved-Open W H 0 0 0 d e refl
          (ground (
            arith, s.x_same, s.height_same, s.line_same, s.prevline_same, s.size_same, s.used_on,
            s.count_up,
          ))
          o)
  ];
}

-- The header of an order has been read up to `e`.
record Header (d e : Decoder) : Type 0 where
  same : Same d e
  used_more : d.used < e.used

ahead :
    {A : Type 0} (d e : Decoder) (o : Outcome (A × Decoder))
    → Header d e
    → Safe (λ _ f. Same e f) o
    → Safe (λ _ f. Header d f) o
ahead d e (ok (_, f)) h s = record {
  same = same_trans d e f h.same s;
  used_more = omega (arith, h.used_more, s.used_on);
}
ahead d e refused h s = tt
ahead d e overread h s = tt
ahead d e outside h s = s
ahead d e exhausted h s = s

in_code-Header : (d : Decoder) → Safe (λ _ e. Header d e) (cval (record d { fom_mask = 0 }))
unfolding cval
in_code-Header d = ground arith

order-Further :
    (bpp W H : ℕ) (d : Decoder)
    → 0 < W
    → Standing W H d
    → Safe (λ _ e. Further W H d e) (order bpp W H d)
unfolding order
order-Further bpp W H d wide s =
    bind-Safe (λ _ e. Header d e) (λ _ e. Further W H d e) (cval (record d { fom_mask = 0 })) _
      (in_code-Header d)
      (λ code e h.
        bind-Safe (λ _ e. Header d e) (λ _ e. Further W H d e) (in_opcode code e) _
          (ahead d e (in_opcode code e) h (in_opcode-Safe code e))
          (λ form f h.
            bind-Safe (λ _ e. Header d e) (λ _ e. Further W H d e) (in_count form.0 form.1 form.2 f)
              _
              (ahead d f (in_count form.0 form.1 form.2 f) h (in_count-Safe form.0 form.1 form.2 f))
              (λ count g h.
                bind-Safe (λ _ e. Header d e) (λ _ e. Further W H d e)
                  (in_preliminary bpp W form.0 g) _
                  (ahead d g (in_preliminary bpp W form.0 g) h (in_preliminary-Safe bpp W form.0 g))
                  (λ opcode k h.
                    let k' : Decoder = record k {
                      lastopcode = some opcode;
                      mixmask = 0;
                      count = count;
                    } in
                    let s₀ : Standing W H k = Same-Standing W H d k h.same s in
                    let s' : Standing W H k' = ground (arith, s₀.size, s₀.top, s₀.place) in
                    Safe-map W H (output_run (H + 2) bpp W opcode k')
                      (λ m (r : Ran W H k' m). record {
                        standing = r.standing;
                        used_more = omega (arith, h.used_more, r.used_on);
                      })
                      (output_run-Ran W H (H + 2) bpp opcode k' wide s'
                        (ground (arith, s'.top)))))))

orders-Standing :
    (fuel bpp W H size : ℕ) (d : Decoder)
    → 0 < W
    → Standing W H d
    → 0 < fuel
    → size < fuel + d.used
    → Safe (λ _ e. Standing W H e) (orders fuel bpp W H size d)
unfolding orders
orders-Standing zero bpp W H size d wide s some_fuel enough = absurd (omega arith)
orders-Standing (suc fuel) bpp W H size d wide s some_fuel enough =
    elim (Bool-cases (ltb d.used size)) [
      | inr e ↦ rw e s
      | inl e ↦ rw e (
          bind-Safe (λ _ e. Further W H d e) (λ _ e. Standing W H e) (order bpp W H d) _
            (order-Further bpp W H d wide s)
            (λ _ f p.
              let less : d.used < size = ground (arith, e) in
              orders-Standing fuel bpp W H size f wide p.standing (omega arith)
                (omega (arith, p.used_more))))
    ]

-- How a decoder ends on an output of `n` pixels.
abbrev pub Within : ℕ → Outcome (List Pixel) → Type 0
Within n (ok output) = length output ≡ n
Within n refused = Unit {0}
Within n overread = Unit {0}
Within n outside = ⊥
Within n exhausted = ⊥

output_of-Within :
    (W H : ℕ) (o : Outcome (Unit {0} × Decoder))
    → Safe (λ _ e. Standing W H e) o
    → Within (H * W) (output_of o)
output_of-Within W H (ok (_, d)) s = s.size
output_of-Within W H refused s = tt
output_of-Within W H overread s = tt
output_of-Within W H outside s = s
output_of-Within W H exhausted s = s

-- For a positive width and an output of `height * width` pixels, the decoder for pixels of `bpp`
-- octets, on any input, ends and neither reads nor writes outside the output: it gives an output
-- of the same number of pixels, refuses the input, or reads behind the end of the input.
pub decompress-Within :
    (bpp width height size : ℕ) (output : List Pixel) (input : List ℕ)
    → 0 < width
    → length output ≡ height * width
    → Within (height * width) (decompress bpp output width height input size)
unfolding decompress
decompress-Within bpp width height size output input wide fits = output_of-Within width height _ (
    orders-Standing (size + 1) bpp width height size (start bpp width height output input) wide
      (record { size = fits; top = omega arith; place = inl (refl, refl) }) (omega arith)
      (omega arith))
