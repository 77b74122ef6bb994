-- ===== src/Orders/Bmpcache.antt =====
-- source/orders.c: the secondary orders that put bitmaps into the cache.
use rdesktopce_rdp.Prelude.{
  on, ℕ, zero, suc, ◌+◌, ◌-◌, ◌*◌, ◌/◌, ◌%◌, ◌^◌, Bool, Option, none, some, List, [], ◌++◌, leb,
  if◌then◌else◌, length, take, drop,
}
use rdesktopce_rdp.Stream
use rdesktopce_rdp.Stream.{in_uint8, in_uint8p, in_uint8s, in_uint16_le, in_uint16_be}
use rdesktopce_rdp.Bitmap.{Outcome, ok, refused, overread, outside, exhausted}
use rdesktopce_rdp.Bitmap.Decompress.{bitmap_decompress}
use rdesktopce_rdp.Orders.Store.{put_bitmap}
use rdesktopce_rdp.Orders.Screen.{
  Platform, ui_create_bitmap, pstcache_save_bitmap, S, pure, ◌>>=◌, ◌>>◌, on_stream, gets, call,
}

-- The row at `data[y * n]` goes to `(height - y - 1) * n`, before the rows that were copied earlier.
unfoldable pub invert : ℕ → ℕ → List ℕ → List ℕ → Option (List ℕ)
invert zero n octets inverted = some inverted
invert (suc h) n octets inverted =
    if leb n (length octets) then invert h n (drop n octets) (take n octets ++ inverted) else none

-- A value that is not there, and a fault of the decoder, are faults; `none` inside is a refusal.
unfoldable pub copied : Option (List ℕ) → S (List ℕ)
copied none w = none
copied (some a) w = some (a, w)

unfoldable pub decoded : Outcome (List ℕ) → S (Option (List ℕ))
decoded (ok a) = pure (some a)
decoded refused = pure none
decoded overread = λ w. none
decoded outside = λ w. none
decoded exhausted = λ w. none

-- The handle that the user interface returns.
unfoldable pub create_bitmap : Platform → ℕ → ℕ → List ℕ → S (Option ℕ)
create_bitmap ui width height octets = do
  call (ui_create_bitmap width height octets)
  gets (λ w. ui.handle w.calls)

unfoldable pub process_raw_bmpcache : Platform → S (Unit {0})
unfolding in_uint8p invert create_bitmap
process_raw_bmpcache ui = do
  cache_id ← on_stream in_uint8
  on_stream (in_uint8s 1)
  width ← on_stream in_uint8
  height ← on_stream in_uint8
  bpp ← on_stream in_uint8
  bufsize ← on_stream in_uint16_le
  cache_idx ← on_stream in_uint16_le
  octets ← on_stream (in_uint8p bufsize)
  inverted ← copied (invert height (width * ((bpp + 7) / 8)) octets [])
  bitmap ← create_bitmap ui width height inverted
  put_bitmap cache_id cache_idx bitmap

-- The size of the data before RDP_V5, between three words that are not used.
unfoldable pub in_size : Stream.M ℕ
unfolding in_uint16_le
in_size s = Stream.bind (in_uint16_le s) (λ pad. λ s1. Stream.bind (in_uint16_le s1) (λ size. λ s2.
    Stream.bind (in_uint16_le s2)
      (λ row_size. λ s3. Stream.bind (in_uint16_le s3) (λ final_size. Stream.pure size))))

unfoldable pub process_bmpcache : Platform → S (Unit {0})
unfolding in_uint8p in_size create_bitmap
process_bmpcache ui = do
  cache_id ← on_stream in_uint8
  pad1 ← on_stream in_uint8
  width ← on_stream in_uint8
  height ← on_stream in_uint8
  bpp ← on_stream in_uint8
  bufsize ← on_stream in_uint16_le
  cache_idx ← on_stream in_uint16_le
  version ← gets (λ w. w.version)
  size ← (if leb 5 version then pure bufsize else on_stream in_size)
  octets ← on_stream (in_uint8p size)
  bmpdata ← decoded (bitmap_decompress width height octets size ((bpp + 7) / 8))
  elim bmpdata [
    | none ↦ pure tt
    | some pixels ↦ do
      bitmap ← create_bitmap ui width height pixels
      put_bitmap cache_id cache_idx bitmap
  ]

-- The header of a bitmap cache v2 order.
pub record Bmpcache2 : Type 0 where
  pub key : List ℕ
  pub width : ℕ
  pub height : ℕ
  pub bufsize : ℕ
  pub cache_idx : ℕ
  pub octets : List ℕ

unfoldable pub in_index : S ℕ
in_index = do
  cache_idx ← on_stream in_uint8
  (if on cache_idx 0x80
      then (do low ← on_stream in_uint8; pure ((cache_idx - 0x80) * 256 + low))
      else pure cache_idx)

unfoldable pub in_bmpcache2 : ℕ → S Bmpcache2
unfolding in_uint8p in_index
in_bmpcache2 flags = do
  key ← (if on flags 0x100 then on_stream (in_uint8p 8) else pure [])
  width ← on_stream in_uint8
  height ← (if on flags 0x80 then pure width else on_stream in_uint8)
  bufsize ← on_stream in_uint16_be
  cache_idx ← in_index
  octets ← on_stream (in_uint8p (bufsize % 2 ^ 14))
  pure (record {
    key = take 8 key;
    width = width;
    height = height;
    bufsize = bufsize % 2 ^ 14;
    cache_idx = cache_idx;
    octets = octets;
  })

-- `Bpp`, a uint8.
abbrev pub bytes_per_pixel : ℕ → ℕ
bytes_per_pixel flags = (flags / 8 % 8 + 254) % 256

unfoldable pub process_bmpcache2 : Platform → ℕ → Bool → S (Unit {0})
unfolding in_bmpcache2 invert create_bitmap
process_bmpcache2 ui flags compressed = do
  b ← in_bmpcache2 flags
  bmpdata ←
      (if compressed
        then decoded (bitmap_decompress b.width b.height b.octets b.bufsize (bytes_per_pixel flags))
        else (do
          rows ← copied (invert b.height (b.width * bytes_per_pixel flags) b.octets [])
          pure (some rows)))
  elim bmpdata [
    | none ↦ pure tt
    | some pixels ↦ do
      bitmap ← create_bitmap ui b.width b.height pixels
      elim bitmap [
        | none ↦ pure tt
        | some bmp ↦ do
          put_bitmap (flags % 8) b.cache_idx (some bmp)
          (if on flags 0x100
              then call (
                  pstcache_save_bitmap (flags % 8) b.cache_idx b.key b.width b.height
                    (b.width * b.height * bytes_per_pixel flags % 2 ^ 16) pixels)
              else pure tt)
      ]
  ]
