-- ===== src/Orders/Kept.antt =====
-- The handlers of source/orders.c keep what does not look at the stream, the caches and the drawing.
use rdesktopce_rdp.Prelude.{
  on, ℕ, zero, suc, ◌+◌, ◌-◌, ◌*◌, ◌%◌, refl, Bool, true, false, Option, none, some, List, [], leb,
  ◌==◌, ◌&&◌,
}
use rdesktopce_rdp.Stream
use rdesktopce_rdp.Bitmap.{Outcome, ok, refused, overread, outside, exhausted}
use rdesktopce_rdp.Orders.Screen.{
  Screen, Platform, ui_create_bitmap, ui_create_colourmap, ui_set_colourmap, ui_create_glyph,
  pstcache_save_bitmap, S, pure, ◌>>=◌, on_stream,
}
use rdesktopce_rdp.Orders.Bmpcache.{
  copied, decoded, create_bitmap, process_raw_bmpcache, process_bmpcache, in_index, in_bmpcache2,
  process_bmpcache2,
}
use rdesktopce_rdp.Orders.Caches.{
  in_colours, process_colcache, in_glyphs, process_fontcache, in_mono, in_brush, process_brushcache,
}
use rdesktopce_rdp.Orders.Process.{dispatch_secondary}
use rdesktopce_rdp.Orders.Keeps
use rdesktopce_rdp.Orders.Keeps.{Keeps}
use rdesktopce_rdp.Orders.Clip.{
  Blind, reads, calls, put_bitmap-Keeps, put_font-Keeps, put_brush_data-Keeps,
}

module _ {X : Type 0} (view : Screen → X) (blind : Blind view) where
  read_then :
      {A B : Type 0} (m : Stream.M A) {f : A → S B}
      → ((a : A) → Keeps view (f a))
      → Keeps view (on_stream m >>= f)
  read_then m k = Keeps.bind view (reads view blind m) k

  copied-Keeps : (o : Option (List ℕ)) → Keeps view (copied o)
  unfolding copied
  copied-Keeps none = record { run = λ w. tt }
  copied-Keeps (some a) = record { run = λ w. refl }

  decoded-Keeps : (o : Outcome (List ℕ)) → Keeps view (decoded o)
  unfolding decoded
  decoded-Keeps (ok a) = record { run = λ w. refl }
  decoded-Keeps refused = record { run = λ w. refl }
  decoded-Keeps overread = record { run = λ w. tt }
  decoded-Keeps outside = record { run = λ w. tt }
  decoded-Keeps exhausted = record { run = λ w. tt }

  create_bitmap-Keeps :
      (ui : Platform) (width height : ℕ) (octets : List ℕ)
      → Keeps view (create_bitmap ui width height octets)
  unfolding create_bitmap
  create_bitmap-Keeps ui width height octets =
      Keeps.seq view (calls view blind (ui_create_bitmap width height octets) (λ b. refl))
        (Keeps.query view (λ w. ui.handle w.calls))

  process_raw_bmpcache-Keeps : (ui : Platform) → Keeps view (process_raw_bmpcache ui)
  unfolding process_raw_bmpcache
  process_raw_bmpcache-Keeps ui = read_then _ (λ cache_id. read_then _ (λ _. read_then _ (λ width.
      read_then _ (λ height. read_then _ (λ bpp. read_then _ (λ bufsize. read_then _ (λ cache_idx.
        read_then _ (λ octets. Keeps.bind view (copied-Keeps _) (λ inverted.
          Keeps.bind view (create_bitmap-Keeps ui width height inverted)
            (λ bitmap. put_bitmap-Keeps view blind cache_id cache_idx bitmap))))))))))

  in_colours-Keeps : (n : ℕ) → Keeps view (in_colours n)
  unfolding in_colours
  in_colours-Keeps zero = Keeps.unit view []
  in_colours-Keeps (suc n) = read_then _ (λ blue. read_then _ (λ green. read_then _ (λ red.
      read_then _ (λ _. Keeps.bind view (in_colours-Keeps n) (λ entries. Keeps.unit view _)))))

  process_colcache-Keeps : (ui : Platform) → Keeps view (process_colcache ui)
  unfolding process_colcache
  process_colcache-Keeps ui = read_then _ (λ cache_id. read_then _ (λ ncolours.
      Keeps.bind view (in_colours-Keeps ncolours) (λ colours.
        Keeps.seq view (calls view blind (ui_create_colourmap colours) (λ b. refl)) (
          Keeps.bind view (Keeps.query view (λ w. ui.handle w.calls)) (λ hmap.
            Keeps.branch view (cache_id == 0) (Keeps.unit view tt)
              (calls view blind (ui_set_colourmap hmap) (λ b. refl)))))))

  in_glyphs-Keeps : (ui : Platform) (font n : ℕ) → Keeps view (in_glyphs ui font n)
  unfolding in_glyphs
  in_glyphs-Keeps ui font zero = Keeps.unit view tt
  in_glyphs-Keeps ui font (suc n) = read_then _ (λ character. read_then _ (λ offset.
      read_then _ (λ baseline. read_then _ (λ width. read_then _ (λ height. read_then _ (λ octets.
        Keeps.seq view (calls view blind (ui_create_glyph width height _) (λ b. refl)) (
          Keeps.bind view (Keeps.query view (λ w. ui.handle w.calls)) (λ bitmap.
            Keeps.seq view (put_font-Keeps view blind font character _)
              (in_glyphs-Keeps ui font n)))))))))

  process_fontcache-Keeps : (ui : Platform) → Keeps view (process_fontcache ui)
  unfolding process_fontcache
  process_fontcache-Keeps ui =
      read_then _ (λ font. read_then _ (λ nglyphs. in_glyphs-Keeps ui font nglyphs))

  in_mono-Keeps : (size : ℕ) → Keeps view (in_mono size)
  unfolding in_mono
  in_mono-Keeps size =
      Keeps.branch view (size == 8) (read_then _ (λ octets. Keeps.unit view _)) (Keeps.unit view _)

  in_brush-Keeps : (size Bpp : ℕ) → Keeps view (in_brush size Bpp)
  unfolding in_brush
  in_brush-Keeps size Bpp =
      Keeps.branch view (size == 16 + 4 * Bpp) (read_then _ (λ octets. copied-Keeps _))
        (reads view blind _)

  process_brushcache-Keeps : Keeps view process_brushcache
  unfolding process_brushcache
  process_brushcache-Keeps = read_then _ (λ cache_idx. read_then _ (λ colour_code.
      read_then _ (λ width. read_then _ (λ height. read_then _ (λ type. read_then _ (λ size.
        Keeps.branch view ((width == 8) && (height == 8))
          (Keeps.branch view (colour_code == 1)
            (Keeps.bind view (in_mono-Keeps size) (λ octets. put_brush_data-Keeps view blind _ _ _))
            (Keeps.branch view (leb 3 colour_code && leb colour_code 6)
              (Keeps.bind view (in_brush-Keeps size (colour_code - 2))
                (λ octets. put_brush_data-Keeps view blind _ _ _))
              (Keeps.unit view tt)))
          (Keeps.unit view tt)))))))

  -- What is done with a bitmap that may have been refused.
  given :
      {A : Type 0} {f : A → S (Unit {0})} (o : Option A)
      → ((a : A) → Keeps view (f a))
      → Keeps view (elim o [ none ↦ pure tt | some a ↦ f a ])
  given none h = Keeps.unit view tt
  given (some a) h = h a

  process_bmpcache-Keeps : (ui : Platform) → Keeps view (process_bmpcache ui)
  unfolding process_bmpcache
  process_bmpcache-Keeps ui = read_then _ (λ cache_id. read_then _ (λ pad1. read_then _ (λ width.
      read_then _ (λ height. read_then _ (λ bpp. read_then _ (λ bufsize. read_then _ (λ cache_idx.
        Keeps.bind view (Keeps.query view (λ w. w.version)) (λ version.
          Keeps.bind view
            (Keeps.branch view (leb 5 version) (Keeps.unit view bufsize) (reads view blind _))
            (λ size. read_then _ (λ octets. Keeps.bind view (decoded-Keeps _) (λ bmpdata.
              given bmpdata (λ pixels.
                Keeps.bind view (create_bitmap-Keeps ui width height pixels)
                  (λ bitmap. put_bitmap-Keeps view blind cache_id cache_idx bitmap)))))))))))))

  in_index-Keeps : Keeps view in_index
  unfolding in_index
  in_index-Keeps = read_then _ (λ cache_idx.
      Keeps.branch view (on cache_idx 0x80) (read_then _ (λ low. Keeps.unit view _))
        (Keeps.unit view _))

  in_bmpcache2-Keeps : (flags : ℕ) → Keeps view (in_bmpcache2 flags)
  unfolding in_bmpcache2
  in_bmpcache2-Keeps flags =
      Keeps.bind view (Keeps.branch view (on flags 0x100) (reads view blind _) (Keeps.unit view []))
        (λ key. read_then _ (λ width.
          Keeps.bind view
            (Keeps.branch view (on flags 0x80) (Keeps.unit view width) (reads view blind _))
            (λ height. read_then _ (λ bufsize.
              Keeps.bind view in_index-Keeps
                (λ cache_idx. read_then _ (λ octets. Keeps.unit view _))))))

  process_bmpcache2-Keeps :
      (ui : Platform) (flags : ℕ) (compressed : Bool)
      → Keeps view (process_bmpcache2 ui flags compressed)
  unfolding process_bmpcache2
  process_bmpcache2-Keeps ui flags compressed = Keeps.bind view (in_bmpcache2-Keeps flags) (λ b.
      Keeps.bind view
        (Keeps.branch view compressed (decoded-Keeps _)
          (Keeps.bind view (copied-Keeps _) (λ rows. Keeps.unit view (some rows))))
        (λ bmpdata. given bmpdata (λ pixels.
          Keeps.bind view (create_bitmap-Keeps ui b.width b.height pixels) (λ bitmap.
            given bitmap (λ bmp.
              Keeps.seq view (put_bitmap-Keeps view blind (flags % 8) b.cache_idx (some bmp)) (
                Keeps.branch view (on flags 0x100)
                  (calls view blind (pstcache_save_bitmap _ _ _ _ _ _ _) (λ b. refl))
                  (Keeps.unit view tt)))))))

  pub dispatch_secondary-Keeps :
      (ui : Platform) (flags type : ℕ) → Keeps view (dispatch_secondary ui flags type)
  unfolding dispatch_secondary
  dispatch_secondary-Keeps ui flags type =
      Keeps.branch view (type == 0) (process_raw_bmpcache-Keeps ui) (
        Keeps.branch view (type == 1) (process_colcache-Keeps ui) (
          Keeps.branch view (type == 2) (process_bmpcache-Keeps ui) (
            Keeps.branch view (type == 3) (process_fontcache-Keeps ui) (
              Keeps.branch view (type == 4) (process_bmpcache2-Keeps ui flags false) (
                Keeps.branch view (type == 5) (process_bmpcache2-Keeps ui flags true)
                  (Keeps.branch view (type == 7) process_brushcache-Keeps (Keeps.unit view tt)))))))
