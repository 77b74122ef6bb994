-- ===== src/Orders/Clip.antt =====
-- Whether a clipping region is set after a sequence of calls, and that no handler of source/orders.c
-- changes it.
use rdesktopce_rdp.Prelude.{
  ℕ, ◌≡◌, refl, ◌∙◌, Bool, true, false, Option, none, some, ltb, if◌then◌else◌, List, [], ◌∷◌, ◌++◌,
}
use rdesktopce_rdp.Stream
use rdesktopce_rdp.Stream.{Stream}
use rdesktopce_rdp.Cache.Bitmap
use rdesktopce_rdp.Cache.Tables
use rdesktopce_rdp.Cache.Tables.{Glyph, BrushData}
use rdesktopce_rdp.Orders.{Brush}
use rdesktopce_rdp.Orders.Screen.{
  Screen, Platform, Call, ui_set_clip, ui_reset_clip, on_stream, call,
}
use rdesktopce_rdp.Orders.Store.{
  get_bitmap, put_bitmap, put_font, put_brush_data, setup_brush, set_bank, destroyed,
  destroyed_glyph,
}
use rdesktopce_rdp.Orders.Shape.{lift}
use rdesktopce_rdp.Orders.Keeps
use rdesktopce_rdp.Orders.Keeps.{Keeps}

abbrev pub clip_step : Bool → Call → Bool
clip_step b (ui_set_clip _ _ _ _) = true
clip_step b ui_reset_clip = false
clip_step b _ = b

abbrev pub clip_after : Bool → List Call → Bool
clip_after b [] = b
clip_after b (c ∷ cs) = clip_after (clip_step b c) cs

abbrev pub clipped : Screen → Bool
clipped w = clip_after false w.calls

pub clip_after-append :
    (b : Bool) (xs ys : List Call) → clip_after b (xs ++ ys) ≡ clip_after (clip_after b xs) ys
clip_after-append b [] ys = refl
clip_after-append b (c ∷ cs) ys = clip_after-append (clip_step b c) cs ys

-- Handlers that keep `view`, which does not look at the stream and the caches, and of the calls only at
-- the clipping.
pub record Blind {X : Type 0} (view : Screen → X) : Type 0 where
  pub to_stream : (w : Screen) (s : Stream) → view (record w { stream = s }) ≡ view w
  pub to_banks : (w : Screen) (b : ℕ → Bitmap.Bank) → view (record w { banks = b }) ≡ view w
  pub to_fonts : (w : Screen) (f : ℕ → ℕ → Glyph) → view (record w { fonts = f }) ≡ view w
  pub to_brushes : (w : Screen) (b : ℕ → ℕ → BrushData) → view (record w { brushes = b }) ≡ view w
  pub to_calls :
      (w : Screen) (cs : List Call)
      → ((b : Bool) → clip_after b cs ≡ b)
      → view (record w { calls = w.calls ++ cs }) ≡ view w

module _ {X : Type 0} (view : Screen → X) (blind : Blind view) where
  pub reads : {A : Type 0} (m : Stream.M A) → Keeps view (on_stream m)
  reads m = Keeps.reading view blind.to_stream m

  pub calls : (c : Call) → ((b : Bool) → clip_step b c ≡ b) → Keeps view (call c)
  unfolding call
  calls c h = record { run = λ w. blind.to_calls w (c ∷ []) h }

  pub lift-Keeps : {A : Type 0} (o : Option A) → Keeps view (lift o)
  unfolding lift
  lift-Keeps none = record { run = λ w. tt }
  lift-Keeps (some a) = record { run = λ w. refl }

  pub setup_brush-Keeps : (b : Brush) → Keeps view (setup_brush b)
  unfolding setup_brush
  setup_brush-Keeps b = record { run = λ w. refl }

  pub get_bitmap-Keeps : (ui : Platform) (id idx : ℕ) → Keeps view (get_bitmap ui id idx)
  unfolding get_bitmap
  get_bitmap-Keeps ui id idx = record {
    run =
        λ w. go w (ltb id 3) (Bitmap.cache_get_bitmap idx (ui.stored w.calls id idx) (w.banks id));
  }
    where
      go :
          (w : Screen) (b : Bool) (r : Option (Bitmap.Bank × Option ℕ))
          → Keeps.Shows view w (
              if b
              then elim r [
                | none ↦ none
                | some (bank, bitmap) ↦ some (bitmap, record w { banks = set_bank id bank w.banks })
              ]
              else some (none, w))
      go w false r = refl
      go w true none = tt
      go w true (some (bank, bitmap)) = blind.to_banks w (set_bank id bank w.banks)

  destroyed_lem : (b : Bool) (old : Option ℕ) → clip_after b (destroyed old) ≡ b
  destroyed_lem b none = refl
  destroyed_lem b (some bmp) = refl

  both_destroyed :
      (old evicted : Option ℕ) (b : Bool) → clip_after b (destroyed old ++ destroyed evicted) ≡ b
  both_destroyed old evicted b =
      clip_after-append b (destroyed old) (destroyed evicted)
      ∙ destroyed_lem (clip_after b (destroyed old)) evicted
      ∙ destroyed_lem b old

  pub put_bitmap-Keeps : (id idx : ℕ) (bitmap : Option ℕ) → Keeps view (put_bitmap id idx bitmap)
  unfolding put_bitmap
  put_bitmap-Keeps id idx bitmap = record {
    run = λ w. go w (ltb id 3) (Bitmap.cache_put_bitmap idx bitmap (w.banks id));
  }
    where
      go :
          (w : Screen) (b : Bool) (r : Option (Bitmap.Bank × Option ℕ × Option ℕ))
          → Keeps.Shows view {A = Unit {0}} w (
              if b
              then elim r [
                | none ↦ none
                | some (bank, old, evicted) ↦ some (
                  tt,
                  record w {
                    banks = set_bank id bank w.banks;
                    calls = w.calls ++ (destroyed old ++ destroyed evicted);
                  },
                )
              ]
              else some (tt, w))
      go w false r = refl
      go w true none = tt
      go w true (some (bank, old, evicted)) =
          blind.to_calls (record w { banks = set_bank id bank w.banks })
            (destroyed old ++ destroyed evicted) (both_destroyed old evicted)
          ∙ blind.to_banks w (set_bank id bank w.banks)

  destroyed_glyph_lem : (old : Option ℕ) (b : Bool) → clip_after b (destroyed_glyph old) ≡ b
  destroyed_glyph_lem none b = refl
  destroyed_glyph_lem (some glyph) b = refl

  pub put_font-Keeps : (font character : ℕ) (g : Glyph) → Keeps view (put_font font character g)
  unfolding put_font
  put_font-Keeps font character g = record {
    run = λ w.
        let put = Tables.cache_put_font font character g w.fonts in
        blind.to_calls (record w { fonts = put.0 }) (destroyed_glyph put.1)
          (destroyed_glyph_lem put.1)
        ∙ blind.to_fonts w put.0;
  }

  pub put_brush_data-Keeps : (code idx : ℕ) (b : BrushData) → Keeps view (put_brush_data code idx b)
  unfolding put_brush_data
  put_brush_data-Keeps code idx b = record { run = λ w. blind.to_brushes w _ }
