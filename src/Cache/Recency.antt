-- ===== src/Cache/Recency.antt =====
-- source/cache.c: the list of a bank by recency, as removal and insertion change it.
use rdesktopce_rdp.Prelude.{
  ℕ, ◌-◌, ◌≡◌, refl, sym, subst, ◌∙◌, Option, none, some, List, [], ◌∷◌, ◌++◌, length, arith,
  length-append,
}
use rdesktopce_rdp.Cache.Bitmap.{Cell, Bank, set_cell, link_next, link_previous, unlink, insert}
use rdesktopce_rdp.Cache.Chain.{
  first, last, last_of, Absent, Unique, Part, Absent-left, Absent-right, Absent-last_of,
  Unique-without, Unique-parts, Unique-last, last-append, Part-split, Part-join, Part-set_cell,
  next_set, previous_set, Part-next_set, Part-previous_set,
}

-- The bank's list is `xs`, from the least recently used on.
pub record Linked (b : Bank) (xs : List ℕ) : Type 0 where
  pub chain : Part b.cells none xs none
  pub oldest : b.lru ≡ first xs none
  pub newest : b.mru ≡ last none xs
  pub counted : b.count ≡ length xs
  pub unique : Unique xs

-- The bitmaps are where they were.
abbrev pub Same : Bank → Bank → Type 0
Same b b' = (j : ℕ) → (b'.cells j).bitmap ≡ (b.cells j).bitmap

pub last_of-Absent : (x : ℕ) (xs ys : List ℕ) → Unique (x ∷ (xs ++ ys)) → Absent (last_of x xs) ys
last_of-Absent x [] ys (a, u) = a
last_of-Absent x (y ∷ xs) ys (a, u) = last_of-Absent y xs ys u

-- The neighbours of an index, and the rest of the list on both sides.
record Split (b : Bank) (xs : List ℕ) (idx y : ℕ) (ys : List ℕ) : Type 0 where
  before : Part b.cells none xs (some idx)
  previous : (b.cells idx).previous ≡ last none xs
  next : (b.cells idx).next ≡ some y
  after : Part b.cells (some idx) (y ∷ ys) none
  unique : Unique (xs ++ (y ∷ ys))
  apart : Absent idx (xs ++ (y ∷ ys))

split :
    (b : Bank) (xs : List ℕ) (idx y : ℕ) (ys : List ℕ)
    → Linked b (xs ++ (idx ∷ (y ∷ ys)))
    → Split b xs idx y ys
split b xs idx y ys l =
    let (before, (previous, next, after)) =
      Part-split b.cells none none xs (idx ∷ (y ∷ ys)) l.chain in
    let (unique, apart) = Unique-without idx xs (y ∷ ys) l.unique in
    record {
      before = before;
      previous = previous;
      next = next;
      after = after;
      unique = unique;
      apart = apart;
    }

-- What removal leaves.
pub record Unlinked (idx : ℕ) (b : Bank) (p n : Option ℕ) (xs : List ℕ) : Type 0 where
  pub b' : Bank
  pub result : unlink idx b ≡ (p, n, b')
  pub linked : Linked b' xs
  pub persistent : b'.persistent ≡ b.persistent
  pub same : Same b b'

next_set-bitmap :
    (o n : Option ℕ) (cells : ℕ → Cell) (j : ℕ) → (next_set o n cells j).bitmap ≡ (cells j).bitmap
next_set-bitmap none n cells j = refl
next_set-bitmap (some p) n cells j = ground arith

previous_set-bitmap :
    (o p : Option ℕ) (cells : ℕ → Cell) (j : ℕ)
    → (previous_set o p cells j).bitmap ≡ (cells j).bitmap
previous_set-bitmap none p cells j = refl
previous_set-bitmap (some n) p cells j = ground arith

count_lem :
    (xs : List ℕ) (idx y : ℕ) (ys : List ℕ) (n : ℕ)
    → n ≡ length (xs ++ (idx ∷ (y ∷ ys)))
    → n - 1 ≡ length (xs ++ (y ∷ ys))
count_lem xs idx y ys n e =
    omega (arith, e, length-append xs (idx ∷ (y ∷ ys)), length-append xs (y ∷ ys))

unlink-oldest :
    (b : Bank) (idx y : ℕ) (ys : List ℕ)
    → Linked b (idx ∷ (y ∷ ys))
    → Unlinked idx b none (some y) (y ∷ ys)
unfolding unlink link_next link_previous
unlink-oldest b idx y ys l =
    let s = split b [] idx y ys l in
    record {
      b' = record b {
        count = b.count - 1;
        lru = some y;
        cells = previous_set (some y) none b.cells;
      };
      result = rw (s.next, s.previous) refl;
      linked = record {
        chain = Part-previous_set b.cells (some idx) none none y ys s.unique.0 s.after;
        oldest = refl;
        newest = l.newest;
        counted = count_lem [] idx y ys b.count l.counted;
        unique = s.unique;
      };
      persistent = refl;
      same = λ j. ground arith;
    }

unlink-middle :
    (b : Bank) (x : ℕ) (xs : List ℕ) (idx y : ℕ) (ys : List ℕ)
    → Linked b ((x ∷ xs) ++ (idx ∷ (y ∷ ys)))
    → Unlinked idx b (some (last_of x xs)) (some y) ((x ∷ xs) ++ (y ∷ ys))
unfolding unlink link_next link_previous
unlink-middle b x xs idx y ys l =
    let s = split b (x ∷ xs) idx y ys l in
    let z = last_of x xs in
    let cells₁ = next_set (some z) (some y) b.cells in
    let cells₂ = previous_set (some y) (some z) cells₁ in
    let (u, a) = Unique-without y (x ∷ xs) ys s.unique in
    let y_before = Absent-left y (x ∷ xs) ys a in
    let y_after = Absent-right y (x ∷ xs) ys a in
    let z_apart = last_of-Absent x xs (y ∷ ys) s.unique in
    let (u', _) = Unique-parts (x ∷ xs) (y ∷ ys) s.unique in
    let left =
      Part-set_cell cells₁ y (record (cells₁ y) { previous = some z }) none (some y) (x ∷ xs)
        y_before (Part-next_set b.cells none (some idx) (some y) x xs u' s.before) in
    let right = Part-previous_set cells₁ (some idx) (some z) none y ys y_after (
      Part-set_cell b.cells z (record (b.cells z) { next = some y }) (some idx) none (y ∷ ys)
        z_apart s.after) in
    record {
      b' = record b { count = b.count - 1; cells = cells₂ };
      result = rw (s.next, s.previous) refl;
      linked = record {
        chain = Part-join cells₂ none none (x ∷ xs) (y ∷ ys) left right;
        oldest = l.oldest;
        newest =
            l.newest
            ∙ last-append none (x ∷ xs) idx (y ∷ ys)
            ∙ sym (last-append none (x ∷ xs) y ys);
        counted = count_lem (x ∷ xs) idx y ys b.count l.counted;
        unique = s.unique;
      };
      persistent = refl;
      same = λ j.
          previous_set-bitmap (some y) (some z) cells₁ j
          ∙ next_set-bitmap (some z) (some y) b.cells j;
    }

pub unlink_lem :
    (b : Bank) (xs : List ℕ) (idx y : ℕ) (ys : List ℕ)
    → Linked b (xs ++ (idx ∷ (y ∷ ys)))
    → Unlinked idx b (last none xs) (some y) (xs ++ (y ∷ ys))
unlink_lem b [] idx y ys l = unlink-oldest b idx y ys l
unlink_lem b (x ∷ xs) idx y ys l = unlink-middle b x xs idx y ys l

-- An index that is not in the list becomes the most recently used.
pub record Inserted (idx : ℕ) (b : Bank) (b' : Bank) (xs : List ℕ) : Type 0 where
  pub linked : Linked b' xs
  pub persistent : b'.persistent ≡ b.persistent
  pub same : Same b b'

cell_bitmap :
    (idx : ℕ) (p n : Option ℕ) (cells : ℕ → Cell) (j : ℕ)
    → (set_cell idx (record (cells idx) { previous = p; next = n }) cells j).bitmap
      ≡ (cells j).bitmap
cell_bitmap idx p n cells j = ground arith

insert_alone :
    (b : Bank) (idx : ℕ) → Linked b [] → Inserted idx b (insert idx none none b) (idx ∷ [])
unfolding insert link_next link_previous
insert_alone b idx l = record {
  linked = record {
    chain = (ground arith, ground arith, tt);
    oldest = refl;
    newest = refl;
    counted = omega (arith, l.counted);
    unique = (tt, tt);
  };
  persistent = refl;
  same = λ j. cell_bitmap idx none none b.cells j;
}

insert_behind :
    (b : Bank) (idx x : ℕ) (xs : List ℕ)
    → Linked b (x ∷ xs)
    → Absent idx (x ∷ xs)
    → Inserted idx b (insert idx (some (last_of x xs)) none b) ((x ∷ xs) ++ (idx ∷ []))
unfolding insert link_next link_previous
insert_behind b idx x xs l a =
    let z = last_of x xs in
    let cells₁ = set_cell idx (record (b.cells idx) { previous = some z; next = none }) b.cells in
    let cells₂ = next_set (some z) (some idx) cells₁ in
    let apart = Absent-last_of idx x xs a in
    record {
      linked = record {
        chain =
            Part-join cells₂ none none (x ∷ xs) (idx ∷ [])
              (Part-next_set cells₁ none none (some idx) x xs l.unique (
                Part-set_cell b.cells idx (record (b.cells idx) { previous = some z; next = none })
                  none none (x ∷ xs) a l.chain))
              (ground (arith, apart), ground (arith, apart), tt);
        oldest = l.oldest;
        newest = sym (last-append none (x ∷ xs) idx []);
        counted = omega (arith, l.counted, length-append (x ∷ xs) (idx ∷ []));
        unique = Unique-last idx (x ∷ xs) l.unique a;
      };
      persistent = refl;
      same = λ j.
          next_set-bitmap (some z) (some idx) cells₁ j ∙ cell_bitmap idx (some z) none b.cells j;
    }

pub insert_top :
    (b : Bank) (idx : ℕ) (xs : List ℕ)
    → Linked b xs
    → Absent idx xs
    → Inserted idx b (insert idx b.mru none b) (xs ++ (idx ∷ []))
insert_top b idx [] l a =
    subst (λ p. Inserted idx b (insert idx p none b) (idx ∷ [])) (sym l.newest)
      (insert_alone b idx l)
insert_top b idx (x ∷ xs) l a =
    subst (λ p. Inserted idx b (insert idx p none b) ((x ∷ xs) ++ (idx ∷ []))) (sym l.newest)
      (insert_behind b idx x xs l a)
