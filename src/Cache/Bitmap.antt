-- ===== src/Cache/Bitmap.antt =====
-- source/cache.c: one bank of the bitmap cache, `g_bmpcache[id]` with its list from the least to the most
-- recently used bitmap. NOT_SET is `none`; an access outside the bank is a fault.
use rdesktopce_rdp.Prelude.{
  ℕ, zero, suc, ◌+◌, ◌-◌, Bool, true, false, Option, none, some, List, [], ◌∷◌, ltb, ◌==◌, ◌&&◌,
  not, if◌then◌else◌,
}

pub record Cell : Type 0 where
  pub bitmap : Option ℕ
  pub previous : Option ℕ
  pub next : Option ℕ

-- `persistent` is IS_PERSISTENT(id); `volatile` is `g_volatile_bc[id]`.
pub record Bank : Type 0 where
  pub persistent : Bool
  pub cells : ℕ → Cell
  pub lru : Option ℕ
  pub mru : Option ℕ
  pub count : ℕ
  pub volatile : Option ℕ

abbrev pub cell_count : ℕ
cell_count = 0xa00

abbrev pub set_cell : ℕ → Cell → (ℕ → Cell) → ℕ → Cell
set_cell i c cells j = if i == j then c else cells j

abbrev pub is_set : Option ℕ → Bool
is_set none = false
is_set (some i) = true

abbrev pub same : Option ℕ → ℕ → Bool
same none j = false
same (some i) j = i == j

-- `g_bmpcache[id][p].next = n` if `p` is set, and `g_bmpcache_lru[id] = n` if not.
unfoldable pub link_next : Option ℕ → Option ℕ → Bank → Bank
link_next none n b = record b { lru = n }
link_next (some p) n b = record b { cells = set_cell p (record (b.cells p) { next = n }) b.cells }

unfoldable pub link_previous : Option ℕ → Option ℕ → Bank → Bank
link_previous none p b = record b { mru = p }
link_previous (some n) p b = record b {
  cells = set_cell n (record (b.cells n) { previous = p }) b.cells;
}

-- The walk from the place of removal towards the top, of `bump` steps at most.
unfoldable pub walk : ℕ → (ℕ → Cell) → Option ℕ → Option ℕ → Option ℕ × Option ℕ
walk zero cells p n = (p, n)
walk (suc bump) cells p none = (p, none)
walk (suc bump) cells p (some n) = walk bump cells (some n) (cells n).next

-- Out of the list, if it is in it below the top: the neighbours, and the bank. `--count` is on a list that
-- is not empty.
unfoldable pub unlink : ℕ → Bank → Option ℕ × Option ℕ × Bank
unfolding link_next link_previous
unlink idx b =
    let p = (b.cells idx).previous in
    let n = (b.cells idx).next in
    if is_set n
    then (p, n, link_previous n p (link_next p n (record b { count = b.count - 1 })))
    else (none, b.lru, b)

-- Into the list, between `p` and `n`.
unfoldable pub insert : ℕ → Option ℕ → Option ℕ → Bank → Bank
unfolding link_next link_previous
insert idx p n b =
    let cell : Cell = record (b.cells idx) { previous = p; next = n } in
    link_previous n (some idx)
      (link_next p (some idx) (record b { count = b.count + 1; cells = set_cell idx cell b.cells }))

-- `bump` is TO_TOP if it is `none`.
unfoldable pub cache_bump_bitmap : ℕ → Option ℕ → Bank → Bank
unfolding unlink walk insert
cache_bump_bitmap idx bump b =
    if not b.persistent
    then b
    else if same b.mru idx
    then b
    else (let (p, n, b') = unlink idx b in
        let place : Option ℕ × Option ℕ = elim bump [
          | none ↦ (b'.mru, none)
          | some k ↦ walk k b'.cells p n
        ] in
        insert idx place.0 place.1 b')

-- The bank, and the bitmap that is destroyed. An empty list, or one of a single bitmap, makes an access at
-- index -1.
unfoldable pub cache_evict_bitmap : Bank → Option (Bank × Option ℕ)
cache_evict_bitmap b = if not b.persistent then some (b, none) else elim b.lru [
  | none ↦ none
  | some idx ↦ elim (b.cells idx).next [
    | none ↦ none
    | some n ↦
        let cells = set_cell idx (record (b.cells idx) { bitmap = none }) b.cells in
        some (
          record b {
            count = b.count - 1;
            lru = some n;
            cells = set_cell n (record (cells n) { previous = none }) cells;
          },
          (b.cells idx).bitmap,
        )
  ]
]

-- The bitmap in its cell, which is not linked yet if there was none before.
abbrev pub store_cell : ℕ → Option ℕ → Bank → Bank
store_cell idx bitmap b =
    let stored : Cell = record (b.cells idx) { bitmap = bitmap } in
    let cell : Cell =
      if b.persistent && not (is_set (b.cells idx).bitmap)
      then record stored { previous = none; next = none }
      else stored in
    record b { cells = set_cell idx cell b.cells }

-- The limit of the bank, BMPCACHE2_C2_CELLS; `old` has been destroyed before.
unfoldable pub trim : Option ℕ → Bank → Option (Bank × Option ℕ × Option ℕ)
unfolding cache_evict_bitmap
trim old b =
    if b.persistent && ltb 0x150 b.count
    then elim (cache_evict_bitmap b) [ none ↦ none | some (b', gone) ↦ some (b', old, gone) ]
    else some (b, old, none)

-- What `cache_put_bitmap` does behind its guard: the bank, and the bitmaps that are destroyed. A bump does
-- nothing to a bank that is not persistent.
unfoldable pub put_cell : ℕ → Option ℕ → Bank → Option (Bank × Option ℕ × Option ℕ)
unfolding cache_bump_bitmap trim
put_cell idx bitmap b =
    trim (b.cells idx).bitmap (cache_bump_bitmap idx none (store_cell idx bitmap b))

unfoldable pub cache_put_bitmap : ℕ → Option ℕ → Bank → Option (Bank × Option ℕ × Option ℕ)
unfolding put_cell
cache_put_bitmap idx bitmap b =
    if ltb idx cell_count
    then put_cell idx bitmap b
    else if idx == 0x7fff
    then some (record b { volatile = bitmap }, b.volatile, none)
    else some (b, none, none)

-- `pstcache_load_bitmap`, where `file` is the bitmap that the cell of the file gives, if one can be loaded.
unfoldable pub load : ℕ → Option (Option ℕ) → Bank → Option (Bank × Bool)
unfolding cache_put_bitmap
load idx none b = some (b, false)
load idx (some bitmap) b = elim (cache_put_bitmap idx bitmap b) [
  | none ↦ none
  | some (b', _, _) ↦ some (b', true)
]

-- `BUMP_COUNT` is 40.
unfoldable pub found : ℕ → Bank → Bank × Option ℕ
unfolding cache_bump_bitmap
found idx b =
    (cache_bump_bitmap idx (some 40) b, ((cache_bump_bitmap idx (some 40) b).cells idx).bitmap)

unfoldable pub cache_get_bitmap : ℕ → Option (Option ℕ) → Bank → Option (Bank × Option ℕ)
unfolding load found
cache_get_bitmap idx file b =
    if ltb idx cell_count
    then (if is_set (b.cells idx).bitmap then some (found idx b) else elim (load idx file b) [
      | none ↦ none
      | some (b', true) ↦ some (found idx b')
      | some (b', false) ↦ some (b', none)
    ])
    else if idx == 0x7fff
    then some (b, b.volatile)
    else some (b, none)

-- The stamps that `cache_save_state` writes for one bank, from the least recently used on; `fuel` is at least
-- the number of cells in the list.
unfoldable pub stamps : ℕ → (ℕ → Cell) → Option ℕ → ℕ → List (ℕ × ℕ)
stamps zero cells idx t = []
stamps (suc fuel) cells none t = []
stamps (suc fuel) cells (some i) t = (i, t + 1) ∷ stamps fuel cells (cells i).next (t + 1)

-- The first index of `idx`, from its end, whose bitmap is not evicted, is the top. `idx` is from its end on.
unfoldable pub link_all : (ℕ → Cell) → ℕ → List ℕ → (ℕ → Cell) × ℕ × ℕ
link_all cells top [] = (set_cell top (record (cells top) { previous = none }) cells, top, 0)
link_all cells top (i ∷ is) =
    let skip = link_all cells top is in
    let cells' = set_cell top (record (cells top) { previous = some i }) cells in
    let (cells'', last, c) =
      link_all (set_cell i (record (cells' i) { next = some top }) cells') i is in
    if is_set (cells i).bitmap then (cells'', last, c + 1) else skip

-- `none` is `exit(1)`: the list and the cache disagree on their number.
unfoldable pub cache_rebuild_bmpcache_linked_list : List ℕ → Bank → Option Bank
unfolding link_all
cache_rebuild_bmpcache_linked_list [] b = some (record b { lru = none; mru = none })
cache_rebuild_bmpcache_linked_list (i ∷ is) b =
    let skip = cache_rebuild_bmpcache_linked_list is b in
    let (cells, last, c) =
      link_all (set_cell i (record (b.cells i) { next = none }) b.cells) i is in
    if is_set (b.cells i).bitmap
    then (if c + 1 == b.count
        then some (record b { cells = cells; mru = some i; lru = some last })
        else none)
    else skip
