-- ===== src/Cache/Put.antt =====
-- source/cache.c: the bitmap cache as a whole keeps a bounded number of bitmaps by recency.
use rdesktopce_rdp.Prelude.{
  ℕ, ◌-◌, ◌≡◌, ◌≢◌, inl, inr, refl, sym, ap, subst, ◌∙◌, true, false, Option, none, some, List, [],
  ◌∷◌, ◌++◌, ltb, ◌==◌, if◌then◌else◌, length, arith, drop, Bool-cases, ==_iff,
}
use rdesktopce_rdp.Cache.Bitmap.{Cell, Bank, set_cell, is_set, cache_evict_bitmap, store_cell}
use rdesktopce_rdp.Cache.Chain.{
  Absent, Unique, Part, Part-set_cell, previous_set, Part-previous_set,
}
use rdesktopce_rdp.Cache.Recency.{Linked}
use rdesktopce_rdp.Cache.Bump.{without}

-- Every index of the list has a bitmap.
abbrev pub Filled : (ℕ → Cell) → List ℕ → Type 0
Filled cells [] = Unit
Filled cells (x ∷ xs) = (is_set (cells x).bitmap ≡ true) × Filled cells xs

-- A persistent bank whose bitmaps are those of the list.
pub record Cached (b : Bank) (xs : List ℕ) : Type 0 where
  pub persistent : b.persistent ≡ true
  pub linked : Linked b xs
  pub filled : Filled b.cells xs
  pub others : (j : ℕ) → Absent j xs → is_set (b.cells j).bitmap ≡ false

Filled-Absent :
    (cells : ℕ → Cell) (i : ℕ) (xs : List ℕ)
    → Filled cells xs
    → is_set (cells i).bitmap ≡ false
    → Absent i xs
Filled-Absent cells i [] f e = tt
Filled-Absent cells i (x ∷ xs) (h, f) e =
    ((λ p. ground (arith, p, h, e)), Filled-Absent cells i xs f e)

pub Filled-change :
    (cells cells' : ℕ → Cell) (i : ℕ) (xs : List ℕ)
    → ((j : ℕ) → i ≢ j → (cells' j).bitmap ≡ (cells j).bitmap)
    → Absent i xs
    → Filled cells xs
    → Filled cells' xs
Filled-change cells cells' i [] s a f = tt
Filled-change cells cells' i (x ∷ xs) s (d, a) (h, f) =
    (ap is_set (s x d) ∙ h, Filled-change cells cells' i xs s a f)

pub Filled-append :
    (cells : ℕ → Cell) (xs ys : List ℕ)
    → Filled cells xs
    → Filled cells ys
    → Filled cells (xs ++ ys)
Filled-append cells [] ys f g = g
Filled-append cells (x ∷ xs) ys (h, f) g = (h, Filled-append cells xs ys f g)

pub without-Filled :
    (cells : ℕ → Cell) (i : ℕ) (xs : List ℕ) → Filled cells xs → Filled cells (without i xs)
unfolding without
without-Filled cells i [] f = tt
without-Filled cells i (x ∷ xs) (h, f) = elim (Bool-cases (i == x)) [
  | inl e ↦ rw e f
  | inr e ↦ rw e (h, without-Filled cells i xs f)
]

pub without-Absent : (i : ℕ) (xs : List ℕ) → Unique xs → Absent i (without i xs)
unfolding without
without-Absent i [] u = tt
without-Absent i (x ∷ xs) (a, u) = elim (Bool-cases (i == x)) [
  | inl e ↦ rw e (subst (λ k. Absent k xs) (sym ((==_iff i x).0 e)) a)
  | inr e ↦ rw e (ground (arith, e), without-Absent i xs u)
]

-- An index that is not left, and is not the one taken out, was not there.
pub without_back : (i j : ℕ) (xs : List ℕ) → i ≢ j → Absent j (without i xs) → Absent j xs
unfolding without
without_back i j [] d a = tt
without_back i j (x ∷ xs) d a = elim (Bool-cases (i == x)) [
  | inl e ↦ (ground (arith, e, d), subst (λ ys. Absent j ys) (rw e refl) a)
  | inr e ↦
      let step : without i (x ∷ xs) ≡ x ∷ without i xs = rw e refl in
      let (apart, rest) = subst (Absent j) step a in (apart, without_back i j xs d rest)
]

-- The links do not depend on the bitmaps.
Part-links :
    (cells cells' : ℕ → Cell) (p n : Option ℕ) (xs : List ℕ)
    → ((j : ℕ) → (cells' j).previous ≡ (cells j).previous)
    → ((j : ℕ) → (cells' j).next ≡ (cells j).next)
    → Part cells p xs n
    → Part cells' p xs n
Part-links cells cells' p n [] f g h = tt
Part-links cells cells' p n (x ∷ xs) f g (h, k, r) =
    (f x ∙ h, g x ∙ k, Part-links cells cells' (some x) n xs f g r)

pub record Evicted (b : Bank) (x : ℕ) (xs : List ℕ) : Type 0 where
  pub b' : Bank
  pub result : cache_evict_bitmap b ≡ some (b', (b.cells x).bitmap)
  pub persistent : b'.persistent ≡ true
  pub linked : Linked b' xs
  pub gone : (b'.cells x).bitmap ≡ none
  pub kept : (j : ℕ) → x ≢ j → (b'.cells j).bitmap ≡ (b.cells j).bitmap

-- Eviction takes the least recently used of at least two bitmaps.
pub cache_evict_bitmap-Evicted :
    (b : Bank) (x y : ℕ) (ys : List ℕ)
    → b.persistent ≡ true
    → Linked b (x ∷ (y ∷ ys))
    → Evicted b x (y ∷ ys)
unfolding cache_evict_bitmap
cache_evict_bitmap-Evicted b x y ys on l =
    let (previous, next, r) = l.chain in
    let (a, u) = l.unique in
    let cells₁ = set_cell x (record (b.cells x) { bitmap = none }) b.cells in
    record {
      b' = record b {
        count = b.count - 1;
        lru = some y;
        cells = previous_set (some y) none cells₁;
      };
      result = ground (arith, on, l.oldest, next);
      persistent = on;
      linked = record {
        chain = Part-previous_set cells₁ (some x) none none y ys u.0 (
            Part-set_cell b.cells x (record (b.cells x) { bitmap = none }) (some x) none (y ∷ ys) a
              r);
        oldest = refl;
        newest = l.newest;
        counted = omega (arith, l.counted);
        unique = u;
      };
      gone = ground (arith, a.0);
      kept = λ j d. ground (arith, d);
    }

-- The list after a put: the index last, and without its first if there are more than 0x150.
unfoldable pub recent : ℕ → List ℕ → List ℕ
recent idx xs =
    let ys = without idx xs ++ (idx ∷ []) in if ltb 0x150 (length ys) then drop 1 ys else ys

abbrev pub with_bitmap : ℕ → ℕ → Bank → Bank
with_bitmap idx h b = store_cell idx (some h) b

pub record Stored (idx h : ℕ) (b : Bank) (xs : List ℕ) (b' : Bank) : Type 0 where
  pub linked : Linked b' xs
  pub persistent : b'.persistent ≡ true
  pub fresh : Absent idx xs → (b'.cells idx).next ≡ none
  pub here : (b'.cells idx).bitmap ≡ some h
  pub there : (j : ℕ) → idx ≢ j → (b'.cells j).bitmap ≡ (b.cells j).bitmap

pub stored-old :
    (idx h : ℕ) (b : Bank) (xs : List ℕ)
    → Cached b xs
    → is_set (b.cells idx).bitmap ≡ true
    → Stored idx h b xs (with_bitmap idx h b)
stored-old idx h b xs c old = record {
  linked = record {
    chain =
        Part-links b.cells (with_bitmap idx h b).cells none none xs (λ j. ground (arith, old))
          (λ j. ground (arith, old)) c.linked.chain;
    oldest = c.linked.oldest;
    newest = c.linked.newest;
    counted = c.linked.counted;
    unique = c.linked.unique;
  };
  persistent = c.persistent;
  fresh = λ a. ground (arith, old, c.others idx a);
  here = ground (arith, old);
  there = λ j d. ground (arith, d);
}

pub stored-new :
    (idx h : ℕ) (b : Bank) (xs : List ℕ)
    → Cached b xs
    → is_set (b.cells idx).bitmap ≡ false
    → Stored idx h b xs (with_bitmap idx h b)
stored-new idx h b xs c new =
    let apart = Filled-Absent b.cells idx xs c.filled new in
    record {
      linked = record {
        chain = Part-set_cell b.cells idx _ none none xs apart c.linked.chain;
        oldest = c.linked.oldest;
        newest = c.linked.newest;
        counted = c.linked.counted;
        unique = c.linked.unique;
      };
      persistent = c.persistent;
      fresh = λ a. ground (arith, new, c.persistent);
      here = ground (arith, new, c.persistent);
      there = λ j d. ground (arith, d);
    }
