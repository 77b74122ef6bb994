-- ===== src/Cache/Bump.antt =====
-- source/cache.c: the bitmap cache keeps its bitmaps in the order of their last use.
use rdesktopce_rdp.Prelude.{
  ℕ, ◌≡◌, inl, inr, refl, sym, ap, subst, ◌∙◌, true, false, Option, none, List, [], ◌∷◌, ◌++◌, ◌==◌,
  if◌then◌else◌, arith, append-nil, Bool-cases, ==_iff,
}
use rdesktopce_rdp.Cache.Bitmap.{Bank, same, unlink, insert, cache_bump_bitmap}
use rdesktopce_rdp.Cache.Chain.{
  last, Absent, Absent-last_of, Absent-right, Unique-without, last-append,
}
use rdesktopce_rdp.Cache.Recency.{Linked, Same, unlink_lem, insert_top}

-- The list without an index.
unfoldable pub without : ℕ → List ℕ → List ℕ
without i [] = []
without i (x ∷ xs) = if i == x then xs else x ∷ without i xs

-- An index is not in a list, or there is a part before it and one behind.
data Place (i : ℕ) : List ℕ → Type 0 where
  nowhere : {xs : List ℕ} → Absent i xs → without i xs ≡ xs → Place i xs
  between :
      {xs : List ℕ} (before after : List ℕ)
      → xs ≡ before ++ (i ∷ after)
      → without i xs ≡ before ++ after
      → Place i xs

place : (i : ℕ) (xs : List ℕ) → Place i xs
unfolding without
place i [] = nowhere tt refl
place i (x ∷ xs) = elim (Bool-cases (i == x)) [
  | inl e ↦ between [] xs (ap (λ y. y ∷ xs) (sym ((==_iff i x).0 e))) (rw e refl)
  | inr e ↦ elim (place i xs) [
    | nowhere a w ↦ nowhere (ground (arith, e), a) (rw e (ap (λ ys. x ∷ ys) w))
    | between before after p w ↦
        between (x ∷ before) after (ap (λ ys. x ∷ ys) p) (rw e (ap (λ ys. x ∷ ys) w))
  ]
]

-- What a bump to the top leaves.
pub record Bumped (b b' : Bank) (xs : List ℕ) : Type 0 where
  pub linked : Linked b' xs
  pub persistent : b'.persistent ≡ b.persistent
  pub kept : Same b b'

-- The two ways of a bump to the top.
bump_stays :
    (b : Bank) (idx : ℕ)
    → b.persistent ≡ true
    → same b.mru idx ≡ true
    → cache_bump_bitmap idx none b ≡ b
unfolding cache_bump_bitmap
bump_stays b idx on top = ground (arith, on, top)

bump_moves :
    (b : Bank) (idx : ℕ)
    → b.persistent ≡ true
    → same b.mru idx ≡ false
    → cache_bump_bitmap idx none b ≡ insert idx (unlink idx b).2.mru none (unlink idx b).2
unfolding cache_bump_bitmap
bump_moves b idx on below = simp (on, below) refl

unlink_new : (b : Bank) (idx : ℕ) → (b.cells idx).next ≡ none → unlink idx b ≡ (none, b.lru, b)
unfolding unlink
unlink_new b idx e = rw e refl

below : (idx : ℕ) (xs : List ℕ) → Absent idx xs → same (last none xs) idx ≡ false
below idx [] a = refl
below idx (x ∷ xs) a = let differs = Absent-last_of idx x xs a in ground (arith, differs)

bump_last :
    (b : Bank) (xs : List ℕ) (idx : ℕ)
    → Linked b (xs ++ (idx ∷ []))
    → b.persistent ≡ true
    → Bumped b (cache_bump_bitmap idx none b) (xs ++ (idx ∷ []))
bump_last b xs idx l on =
    let top : same b.mru idx ≡ true =
      ap (λ m. same m idx) (l.newest ∙ last-append none xs idx []) ∙ ground arith in
    subst (λ b'. Bumped b b' (xs ++ (idx ∷ []))) (sym (bump_stays b idx on top))
      (record { linked = l; persistent = refl; kept = λ j. refl })

bump_middle :
    (b : Bank) (xs : List ℕ) (idx y : ℕ) (ys : List ℕ)
    → Linked b (xs ++ (idx ∷ (y ∷ ys)))
    → b.persistent ≡ true
    → Bumped b (cache_bump_bitmap idx none b) ((xs ++ (y ∷ ys)) ++ (idx ∷ []))
bump_middle b xs idx y ys l on =
    let (u, apart) = Unique-without idx xs (y ∷ ys) l.unique in
    let differs = Absent-last_of idx y ys (Absent-right idx xs (y ∷ ys) apart) in
    let below : same b.mru idx ≡ false =
      ap (λ m. same m idx) (l.newest ∙ last-append none xs idx (y ∷ ys))
      ∙ ground (arith, differs) in
    let un = unlink_lem b xs idx y ys l in
    let top = insert_top un.b' idx (xs ++ (y ∷ ys)) un.linked apart in
    let moved : cache_bump_bitmap idx none b ≡ insert idx un.b'.mru none un.b' =
      bump_moves b idx on below
      ∙ ap (λ (r : Option ℕ × Option ℕ × Bank). insert idx r.2.mru none r.2) un.result in
    subst (λ b'. Bumped b b' ((xs ++ (y ∷ ys)) ++ (idx ∷ []))) (sym moved)
      (record {
        linked = top.linked;
        persistent = top.persistent ∙ un.persistent;
        kept = λ j. top.same j ∙ un.same j;
      })

-- An index that is in no list, whose cell has no next.
bump_new :
    (b : Bank) (xs : List ℕ) (idx : ℕ)
    → Linked b xs
    → Absent idx xs
    → (b.cells idx).next ≡ none
    → b.persistent ≡ true
    → Bumped b (cache_bump_bitmap idx none b) (xs ++ (idx ∷ []))
bump_new b xs idx l a e on =
    let un : unlink idx b ≡ (none, b.lru, b) = unlink_new b idx e in
    let moved : cache_bump_bitmap idx none b ≡ insert idx b.mru none b =
      bump_moves b idx on (ap (λ m. same m idx) l.newest ∙ below idx xs a)
      ∙ ap (λ (r : Option ℕ × Option ℕ × Bank). insert idx r.2.mru none r.2) un in
    let top = insert_top b idx xs l a in
    subst (λ b'. Bumped b b' (xs ++ (idx ∷ []))) (sym moved)
      (record { linked = top.linked; persistent = top.persistent; kept = top.same })

-- A bump to the top makes an index the last of the list, wherever it was, and moves no bitmap: on a bank whose list is
-- `xs`, where the cell of an index outside the list has no next.
pub cache_bump_bitmap-Bumped :
    (b : Bank) (xs : List ℕ) (idx : ℕ)
    → Linked b xs
    → b.persistent ≡ true
    → (Absent idx xs → (b.cells idx).next ≡ none)
    → Bumped b (cache_bump_bitmap idx none b) (without idx xs ++ (idx ∷ []))
cache_bump_bitmap-Bumped b xs idx l on fresh = elim (place idx xs) [
  | nowhere a w ↦
      subst (λ ys. Bumped b (cache_bump_bitmap idx none b) (ys ++ (idx ∷ []))) (sym w)
        (bump_new b xs idx l a (fresh a) on)
  | between before [] p w ↦
      subst (λ ys. Bumped b (cache_bump_bitmap idx none b) (ys ++ (idx ∷ [])))
        (sym (w ∙ append-nil before)) (bump_last b before idx (subst (Linked b) p l) on)
  | between before (y ∷ ys) p w ↦
      subst (λ zs. Bumped b (cache_bump_bitmap idx none b) (zs ++ (idx ∷ []))) (sym w)
        (bump_middle b before idx y ys (subst (Linked b) p l) on)
]
