-- ===== src/Cache/Refine.antt =====
-- source/cache.c: `cache_put_bitmap` against a list by recency.
use rdesktopce_rdp.Prelude.{
  ℕ, ◌≡◌, ◌≢◌, ◌≤◌, ◌<◌, ◌⊎◌, inl, inr, refl, sym, ap, subst, ◌∙◌, true, false, Option, none, some,
  List, [], ◌∷◌, ◌++◌, ltb, ◌==◌, length, arith, length-append, drop, Bool-cases, ==_iff, lt→ltb,
  ltb→lt,
}
use rdesktopce_rdp.Cache.Bitmap.{
  Bank, cell_count, is_set, cache_bump_bitmap, cache_evict_bitmap, put_cell, trim, cache_put_bitmap,
}
use rdesktopce_rdp.Cache.Chain.{Absent, Absent-left, Absent-right}
use rdesktopce_rdp.Cache.Bump.{without, cache_bump_bitmap-Bumped}
use rdesktopce_rdp.Cache.Put.{
  Filled-change, Filled-append, without-Filled, without-Absent, without_back, Cached, Evicted,
  cache_evict_bitmap-Evicted, recent, with_bitmap, Stored, stored-old, stored-new,
}

==_differ : (x j : ℕ) → (x == j) ≡ false → x ≢ j
==_differ x j e = ground arith

ltb_le : (m n : ℕ) → ltb m n ≡ false → n ≤ m
ltb_le m n e = ground arith

stored :
    (idx h : ℕ) (b : Bank) (xs : List ℕ) → Cached b xs → Stored idx h b xs (with_bitmap idx h b)
stored idx h b xs c = elim (Bool-cases (is_set (b.cells idx).bitmap)) [
  | inl old ↦ stored-old idx h b xs c old
  | inr new ↦ stored-new idx h b xs c new
]

-- After the bump, before an eviction.
record Placed (idx h : ℕ) (b : Bank) (b' : Bank) (ys : List ℕ) : Type 0 where
  cached : Cached b' ys
  here : (b'.cells idx).bitmap ≡ some h
  there : (j : ℕ) → idx ≢ j → (b'.cells j).bitmap ≡ (b.cells j).bitmap

placed :
    (idx h : ℕ) (b : Bank) (xs : List ℕ)
    → Cached b xs
    → Placed idx h b
        (cache_bump_bitmap idx none (with_bitmap idx h b))
        (without idx xs ++ (idx ∷ []))
placed idx h b xs c =
    let st = stored idx h b xs c in
    let b₁ = with_bitmap idx h b in
    let b₂ = cache_bump_bitmap idx none b₁ in
    let bumped = cache_bump_bitmap-Bumped b₁ xs idx st.linked st.persistent st.fresh in
    let here = bumped.kept idx ∙ st.here in
    let there : (j : ℕ) → idx ≢ j → (b₂.cells j).bitmap ≡ (b.cells j).bitmap =
      λ j d. bumped.kept j ∙ st.there j d in
    record {
      cached = record {
        persistent = bumped.persistent ∙ st.persistent;
        linked = bumped.linked;
        filled =
            Filled-append b₂.cells (without idx xs) (idx ∷ [])
              (Filled-change b.cells b₂.cells idx (without idx xs) there
                (without-Absent idx xs c.linked.unique) (without-Filled b.cells idx xs c.filled))
              (ap is_set here, tt);
        others = λ j a.
            let (apart, _) = Absent-right j (without idx xs) (idx ∷ []) a in
            ap is_set (there j (λ e. apart (sym e)))
            ∙ c.others j (
                without_back idx j xs (λ e. apart (sym e))
                  (Absent-left j (without idx xs) (idx ∷ []) a));
      };
      here = here;
      there = there;
    }

evicted : (b : Bank) (x : ℕ) (xs : List ℕ) → 0 < length xs → Cached b (x ∷ xs) → Evicted b x xs
evicted b x [] p c = absurd (omega arith)
evicted b x (y ∷ ys) p c = cache_evict_bitmap-Evicted b x y ys c.persistent c.linked

rest-Cached :
    (b : Bank) (x : ℕ) (xs : List ℕ) → Cached b (x ∷ xs) → (e : Evicted b x xs) → Cached e.b' xs
rest-Cached b x xs c e = record {
  persistent = e.persistent;
  linked = e.linked;
  filled = Filled-change b.cells e.b'.cells x xs e.kept c.linked.unique.0 c.filled.1;
  others = λ j a. elim (Bool-cases (x == j)) [
    | inl q ↦
        subst (λ k. is_set (e.b'.cells k).bitmap ≡ false) ((==_iff x j).0 q) (ap is_set e.gone)
    | inr q ↦
        let apart : x ≢ j = ground (arith, q) in
        ap is_set (e.kept j apart) ∙ c.others j ((λ p. apart (sym p)), a)
  ];
}

-- What a put leaves: the list `zs`, the bitmap in its place, and every other bitmap that is still listed.
pub record AfterPut (idx h : ℕ) (b : Bank) (zs : List ℕ) : Type 0 where
  pub b' : Bank
  pub gone : Option ℕ
  pub result : cache_put_bitmap idx (some h) b ≡ some (b', (b.cells idx).bitmap, gone)
  pub cached : Cached b' zs
  pub bounded : length zs ≤ 0x150
  pub here : (b'.cells idx).bitmap ≡ some h
  pub there : (j : ℕ) → idx ≢ j → ((b'.cells j).bitmap ≡ (b.cells j).bitmap) ⊎ Absent j zs

trim_fits : (old : Option ℕ) (b : Bank) → b.count ≤ 0x150 → trim old b ≡ some (b, old, none)
unfolding trim
trim_fits old b p = ground arith

trim_evicts :
    (old gone : Option ℕ) (b b' : Bank)
    → b.persistent ≡ true
    → 0x150 < b.count
    → cache_evict_bitmap b ≡ some (b', gone)
    → trim old b ≡ some (b', old, gone)
unfolding trim
trim_evicts old evictee b b' on p e =
    let over = lt→ltb 0x150 b.count p in ground (arith, on, over, e)

put_lem :
    (idx h : ℕ) (b : Bank)
    → idx < cell_count
    → cache_put_bitmap idx (some h) b
      ≡ trim (b.cells idx).bitmap (cache_bump_bitmap idx none (with_bitmap idx h b))
unfolding cache_put_bitmap put_cell
put_lem idx h b p = let inside = lt→ltb idx cell_count p in rw inside refl

length-without : (i : ℕ) (xs : List ℕ) → length (without i xs) ≤ length xs
unfolding without
length-without i [] = omega arith
length-without i (x ∷ xs) = elim (Bool-cases (i == x)) [
  | inl e ↦ rw e (omega arith)
  | inr e ↦ rw e (let rest = length-without i xs in omega (arith, rest))
]

put_small :
    (idx h : ℕ) (b : Bank) (ys : List ℕ)
    → idx < cell_count
    → Placed idx h b (cache_bump_bitmap idx none (with_bitmap idx h b)) ys
    → length ys ≤ 0x150
    → AfterPut idx h b ys
put_small idx h b ys p pl q =
    let b₂ = cache_bump_bitmap idx none (with_bitmap idx h b) in
    record {
      b' = b₂;
      gone = none;
      result =
          put_lem idx h b p
          ∙ trim_fits (b.cells idx).bitmap b₂ (omega (arith, pl.cached.linked.counted));
      cached = pl.cached;
      bounded = q;
      here = pl.here;
      there = λ j d. inl (pl.there j d);
    }

put_large :
    (idx h : ℕ) (b : Bank) (x : ℕ) (zs : List ℕ)
    → idx < cell_count
    → Placed idx h b (cache_bump_bitmap idx none (with_bitmap idx h b)) (x ∷ zs)
    → x ≢ idx
    → length zs ≡ 0x150
    → AfterPut idx h b zs
put_large idx h b x zs p pl d q =
    let b₂ = cache_bump_bitmap idx none (with_bitmap idx h b) in
    let e = evicted b₂ x zs (omega (arith, q)) pl.cached in
    record {
      b' = e.b';
      gone = (b₂.cells x).bitmap;
      result =
          put_lem idx h b p
          ∙ trim_evicts (b.cells idx).bitmap (b₂.cells x).bitmap b₂ e.b' pl.cached.persistent
              (omega (arith, q, pl.cached.linked.counted)) e.result;
      cached = rest-Cached b₂ x zs pl.cached e;
      bounded = omega (arith, q);
      here = e.kept idx d ∙ pl.here;
      there = λ j apart. elim (Bool-cases (x == j)) [
        | inl same ↦ inr (subst (λ k. Absent k zs) ((==_iff x j).0 same) pl.cached.linked.unique.0)
        | inr other ↦ inl (e.kept j (==_differ x j other) ∙ pl.there j apart)
      ];
    }

recent_small :
    (idx : ℕ) (xs : List ℕ)
    → length (without idx xs ++ (idx ∷ [])) ≤ 0x150
    → recent idx xs ≡ without idx xs ++ (idx ∷ [])
unfolding recent
recent_small idx xs q =
    let fits : ltb 0x150 (length (without idx xs ++ (idx ∷ []))) ≡ false = ground arith in
    rw fits refl

recent_large :
    (idx : ℕ) (xs : List ℕ)
    → 0x150 < length (without idx xs ++ (idx ∷ []))
    → recent idx xs ≡ drop 1 (without idx xs ++ (idx ∷ []))
unfolding recent
recent_large idx xs q =
    let over = lt→ltb 0x150 (length (without idx xs ++ (idx ∷ []))) q in rw over refl

-- A list that is too long by one, taken apart at its first index.
put_over :
    (idx h : ℕ) (b : Bank) (ws : List ℕ)
    → idx < cell_count
    → Placed idx h b (cache_bump_bitmap idx none (with_bitmap idx h b)) (ws ++ (idx ∷ []))
    → length (ws ++ (idx ∷ [])) ≡ 0x151
    → AfterPut idx h b (drop 1 (ws ++ (idx ∷ [])))
put_over idx h b [] p pl q = absurd (omega (arith, q))
put_over idx h b (x ∷ ws) p pl q =
    let (apart, _) = Absent-right x ws (idx ∷ []) pl.cached.linked.unique.0 in
    put_large idx h b x (ws ++ (idx ∷ [])) p pl apart (omega (arith, q))

-- On a persistent bank whose doubly linked list is a list of at most 0x150 indices, those of its
-- bitmaps, a put at an index of the bank succeeds without a fault, and its list is then that list
-- with the index moved or added to the top and, if there would be more than 0x150, without its
-- least recently used index; the bitmap is in its cell, and every other that is still listed is
-- where it was.
pub cache_put_bitmap-AfterPut :
    (idx h : ℕ) (b : Bank) (xs : List ℕ)
    → idx < cell_count
    → length xs ≤ 0x150
    → Cached b xs
    → AfterPut idx h b (recent idx xs)
cache_put_bitmap-AfterPut idx h b xs p bound c =
    let ws = without idx xs in
    let pl = placed idx h b xs c in
    let size : length (ws ++ (idx ∷ [])) ≤ 0x151 =
      omega (arith, length-append ws (idx ∷ []), length-without idx xs) in
    elim (Bool-cases (ltb 0x150 (length (ws ++ (idx ∷ []))))) [
      | inl over ↦
          let more = ltb→lt 0x150 (length (ws ++ (idx ∷ []))) over in
          let full : length (ws ++ (idx ∷ [])) ≡ 0x151 = omega (arith, size, more) in
          subst (AfterPut idx h b) (sym (recent_large idx xs (omega (arith, full))))
            (put_over idx h b ws p pl full)
      | inr fits ↦
          let small : length (ws ++ (idx ∷ [])) ≤ 0x150 =
            ltb_le 0x150 (length (ws ++ (idx ∷ []))) fits in
          subst (AfterPut idx h b) (sym (recent_small idx xs small))
            (put_small idx h b (ws ++ (idx ∷ [])) p pl small)
    ]
