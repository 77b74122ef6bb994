-- ===== src/Orders/Coding/Parts.antt =====
-- The octets of the parts of an order in source/orders.c: a pen, a brush, and an array with its size.
use rdesktopce_rdp.Prelude.{on, ℕ, ◌≡◌, refl, sym, subst, List, [], ◌∷◌, ◌++◌, length, drop, take}
use rdesktopce_rdp.Stream.{pure}
use rdesktopce_rdp.Orders.{Pen, Brush}
use rdesktopce_rdp.Orders.Fields.{rdp_parse_pen, rdp_parse_brush, first_octet, in_sized}
use rdesktopce_rdp.Orders.Coding.{
  Takes, no_more, followed, octet, octets, colour, colour_octets, shown, Shown, optional,
}

-- An array of which the first octets, as many as the size says, are written anew.
abbrev pub Sized : List ℕ → ℕ → List ℕ → Type 0
Sized old size new = (length (take size new) ≡ size) × (new ≡ take size new ++ drop size old)

abbrev pub sized_octets : ℕ → List ℕ → List ℕ
sized_octets size new = size ∷ (take size new ++ [])

pub sized :
    (old : List ℕ) (size : ℕ) (new : List ℕ)
    → Sized old size new
    → Takes {A = ℕ × List ℕ} (in_sized old) (sized_octets size new) (size, new)
unfolding in_sized
sized old size new (e, f) =
    followed _ (octet size) (followed _ (octets (take size new) size (sym e)) done)
  where
    whole : List ℕ → ℕ × List ℕ
    whole a = (size, a)

    done : Takes (pure (whole (take size new ++ drop size old))) [] (whole new)
    done = subst (λ a. Takes (pure (whole a)) [] (whole new)) f (no_more (whole new))

abbrev pub PenAgrees : ℕ → Pen → Pen → Type 0
PenAgrees present old new =
    Shown (on present 1) (Unit {0}) old.style new.style
    × Shown (on present 2) (Unit {0}) old.width new.width
    × Shown (on present 4) (Unit {0}) old.colour new.colour

abbrev pub pen_octets : ℕ → Pen → List ℕ
pen_octets present new =
    shown (on present 1) (new.style ∷ [])
    ++ (shown (on present 2) (new.width ∷ [])
        ++ (shown (on present 4) (colour_octets new.colour) ++ []))

pub rdp_parse_pen-Takes :
    (present : ℕ) (old new : Pen)
    → PenAgrees present old new
    → Takes (rdp_parse_pen present old) (pen_octets present new) new
unfolding rdp_parse_pen
rdp_parse_pen-Takes present old new (h0, h1, h2) =
    followed _ (optional (on present 1) (Unit {0}) old.style new.style (λ _. octet new.style) h0) (
      followed _ (optional (on present 2) (Unit {0}) old.width new.width (λ _. octet new.width) h1)
        (followed _
          (optional (on present 4) (Unit {0}) old.colour new.colour (λ _. colour new.colour) h2)
          (no_more new)))

-- The pattern is of eight octets, its first with a flag of its own.
abbrev pub BrushAgrees : ℕ → Brush → Brush → Type 0
BrushAgrees present old new =
    Shown (on present 1) (Unit {0}) old.xorigin new.xorigin
    × Shown (on present 2) (Unit {0}) old.yorigin new.yorigin
    × Shown (on present 4) (Unit {0}) old.style new.style
    × Shown (on present 8) (Unit {0}) (first_octet old.pattern) (first_octet new.pattern)
    × Shown (on present 16) (7 ≡ length (drop 1 new.pattern)) (drop 1 old.pattern)
        (drop 1 new.pattern)
    × (new.bd ≡ old.bd)
    × (new.pattern ≡ first_octet new.pattern ∷ drop 1 new.pattern)

abbrev pub brush_octets : ℕ → Brush → List ℕ
brush_octets present new =
    shown (on present 1) (new.xorigin ∷ [])
    ++ (shown (on present 2) (new.yorigin ∷ [])
        ++ (shown (on present 4) (new.style ∷ [])
            ++ (shown (on present 8) (first_octet new.pattern ∷ [])
                ++ (shown (on present 16) (drop 1 new.pattern) ++ []))))

pub rdp_parse_brush-Takes :
    (present : ℕ) (old new : Brush)
    → BrushAgrees present old new
    → Takes (rdp_parse_brush present old) (brush_octets present new) new
unfolding rdp_parse_brush
rdp_parse_brush-Takes present old new (h0, h1, h2, h3, h4, h5, h6) =
    followed _
      (optional (on present 1) (Unit {0}) old.xorigin new.xorigin (λ _. octet new.xorigin) h0)
      (followed _
        (optional (on present 2) (Unit {0}) old.yorigin new.yorigin (λ _. octet new.yorigin) h1)
        (followed _
          (optional (on present 4) (Unit {0}) old.style new.style (λ _. octet new.style) h2)
          (followed _
            (optional (on present 8) (Unit {0}) (first_octet old.pattern) (first_octet new.pattern)
              (λ _. octet (first_octet new.pattern)) h3)
            (followed _
              (optional (on present 16) (7 ≡ length (drop 1 new.pattern)) (drop 1 old.pattern)
                (drop 1 new.pattern) (octets (drop 1 new.pattern) 7) h4)
              done))))
  where
    read : Brush
    read = record {
      xorigin = new.xorigin;
      yorigin = new.yorigin;
      style = new.style;
      pattern = first_octet new.pattern ∷ drop 1 new.pattern;
      bd = old.bd;
    }

    read_lem : read ≡ new
    read_lem = rw⁻¹ (h5, h6) refl

    done : Takes (pure read) [] new
    done = subst (λ a. Takes (pure read) [] a) read_lem (no_more read)
