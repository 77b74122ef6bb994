-- ===== src/Cache/Desktop.antt =====
-- source/cache.c: the desktop cache, of `0x38400 * 4` octets.
use rdesktopce_rdp.Prelude.{
  ℕ, zero, suc, ◌+◌, ◌-◌, ◌*◌, ◌≡◌, ◌≤◌, ◌<◌, ◌⊎◌, refl, ap, ◌∙◌, true, false, Option, none, some,
  ltb, leb, if◌then◌else◌, arith, inl,
}

abbrev pub desk_size : ℕ
desk_size = 0x38400 * 4

-- `if (offset > sizeof(g_deskcache)) offset = 0;`
abbrev pub clamp : ℕ → ℕ
clamp offset = if ltb desk_size offset then 0 else offset

-- Where the data stands that a caller gets, or NULL. The numbers are small enough not to wrap.
unfoldable pub cache_get_desktop : ℕ → ℕ → ℕ → ℕ → Option ℕ
cache_get_desktop offset cx cy bytes_per_pixel =
    if leb (clamp offset + cx * cy * bytes_per_pixel) desk_size then some (clamp offset) else none

-- `memcpy(&g_deskcache[offset], data, n)`
unfoldable pub copy_row : ℕ → ℕ → ℕ → (ℕ → ℕ) → (ℕ → ℕ) → ℕ → ℕ
copy_row offset at n src desk j =
    if ltb j offset then desk j else if ltb j (offset + n) then src (at + (j - offset)) else desk j

-- `while (cy--) { ... }`
unfoldable pub copy_rows : ℕ → ℕ → ℕ → ℕ → ℕ → (ℕ → ℕ) → (ℕ → ℕ) → ℕ → ℕ
unfolding copy_row
copy_rows zero offset at n scanline src desk = desk
copy_rows (suc cy) offset at n scanline src desk =
    copy_rows cy (offset + n) (at + scanline) n scanline src (copy_row offset at n src desk)

-- `src` is what `data` points to.
unfoldable pub cache_put_desktop : ℕ → ℕ → ℕ → ℕ → ℕ → (ℕ → ℕ) → (ℕ → ℕ) → ℕ → ℕ
unfolding copy_rows
cache_put_desktop offset cx cy scanline bytes_per_pixel src desk =
    if leb (clamp offset + cx * cy * bytes_per_pixel) desk_size
    then copy_rows cy (clamp offset) 0 (cx * bytes_per_pixel) scanline src desk
    else desk

row_hit :
    (offset at n i : ℕ) (src desk : ℕ → ℕ)
    → i < n
    → copy_row offset at n src desk (offset + i) ≡ src (at + i)
unfolding copy_row
row_hit offset at n i src desk p =
    let back : offset + i - offset ≡ i = omega arith in ground (arith, back)

row_miss :
    (offset at n j : ℕ) (src desk : ℕ → ℕ)
    → (j < offset) ⊎ (offset + n ≤ j)
    → copy_row offset at n src desk j ≡ desk j
unfolding copy_row
row_miss offset at n j src desk p = ground arith

mul_suc : (k n : ℕ) → suc k * n ≡ n + k * n
mul_suc k n = omega arith

rows_miss :
    (cy offset at n scanline j : ℕ) (src desk : ℕ → ℕ)
    → (j < offset) ⊎ (offset + cy * n ≤ j)
    → copy_rows cy offset at n scanline src desk j ≡ desk j
unfolding copy_rows
rows_miss zero offset at n scanline j src desk p = refl
rows_miss (suc cy) offset at n scanline j src desk p =
    rows_miss cy (offset + n) (at + scanline) n scanline j src (copy_row offset at n src desk)
      (omega (arith, mul_suc cy n))
    ∙ row_miss offset at n j src desk (omega (arith, mul_suc cy n))

rows_hit :
    (cy offset at n scanline row i : ℕ) (src desk : ℕ → ℕ)
    → row < cy
    → i < n
    → copy_rows cy offset at n scanline src desk (offset + row * n + i)
      ≡ src (at + row * scanline + i)
unfolding copy_rows
rows_hit zero offset at n scanline row i src desk p q = ground arith
rows_hit (suc cy) offset at n scanline zero i src desk p q =
    let here : offset + 0 * n + i ≡ offset + i = omega arith in
    let there : at + 0 * scanline + i ≡ at + i = omega arith in
    rw (here, there)
      (rows_miss cy (offset + n) (at + scanline) n scanline (offset + i) src
          (copy_row offset at n src desk) (inl (omega arith))
        ∙ row_hit offset at n i src desk q)
rows_hit (suc cy) offset at n scanline (suc row) i src desk p q =
    let here : offset + suc row * n + i ≡ (offset + n) + row * n + i =
      omega (arith, mul_suc row n) in
    let there : at + suc row * scanline + i ≡ (at + scanline) + row * scanline + i =
      omega (arith, mul_suc row scanline) in
    rw (here, there)
      (rows_hit cy (offset + n) (at + scanline) n scanline row i src (copy_row offset at n src desk)
        (omega arith) q)

-- What is put for a rectangle that fits is got again: the same call gives a place at which row
-- after row of the source stands, its lines packed, and all else in the cache is as before.
pub cache_get_desktop-cache_put_desktop :
    (offset cx cy scanline bytes_per_pixel : ℕ) (src desk : ℕ → ℕ)
    → clamp offset + cx * cy * bytes_per_pixel ≤ desk_size
    → (place : ℕ) × (cache_get_desktop offset cx cy bytes_per_pixel ≡ some place)
      × ((row i : ℕ)
          → row < cy
          → i < cx * bytes_per_pixel
          → cache_put_desktop offset cx cy scanline bytes_per_pixel src desk
              (place + row * (cx * bytes_per_pixel) + i)
            ≡ src (row * scanline + i))
      × ((j : ℕ)
          → (j < place) ⊎ (place + cy * (cx * bytes_per_pixel) ≤ j)
          → cache_put_desktop offset cx cy scanline bytes_per_pixel src desk j ≡ desk j)
unfolding cache_get_desktop cache_put_desktop
cache_get_desktop-cache_put_desktop offset cx cy scanline bpp src desk h =
    let fits : leb (clamp offset + cx * cy * bpp) desk_size ≡ true = ground arith in
    (
      clamp offset,
      rw fits refl,
      λ row i p q. rw fits (
          rows_hit cy (clamp offset) 0 (cx * bpp) scanline row i src desk p q
          ∙ ap src (omega arith)),
      λ j p. rw fits (rows_miss cy (clamp offset) 0 (cx * bpp) scanline j src desk p),
    )

-- A rectangle that does not fit leaves the cache alone, and is never found in it.
pub cache_put_desktop_full :
    (offset cx cy scanline bytes_per_pixel : ℕ) (src desk : ℕ → ℕ)
    → desk_size < clamp offset + cx * cy * bytes_per_pixel
    → (cache_put_desktop offset cx cy scanline bytes_per_pixel src desk ≡ desk)
      × (cache_get_desktop offset cx cy bytes_per_pixel ≡ none)
unfolding cache_get_desktop cache_put_desktop
cache_put_desktop_full offset cx cy scanline bpp src desk h =
    let full : leb (clamp offset + cx * cy * bpp) desk_size ≡ false = ground arith in
    (rw full refl, rw full refl)
