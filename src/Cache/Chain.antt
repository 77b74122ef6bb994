-- ===== src/Cache/Chain.antt =====
-- source/cache.c: a part of the list of a bank, as a list of indices from the least recently used on.
use rdesktopce_rdp.Prelude.{ℕ, ◌≡◌, ◌≢◌, refl, sym, Option, none, some, List, [], ◌∷◌, ◌++◌, arith}
use rdesktopce_rdp.Cache.Bitmap.{Cell, set_cell}

-- The first index, or what follows the part.
abbrev pub first : List ℕ → Option ℕ → Option ℕ
first [] n = n
first (x ∷ xs) n = some x

abbrev pub last_of : ℕ → List ℕ → ℕ
last_of x [] = x
last_of x (y ∷ ys) = last_of y ys

-- The last index, or what comes before the part.
abbrev pub last : Option ℕ → List ℕ → Option ℕ
last p [] = p
last p (x ∷ xs) = some (last_of x xs)

abbrev pub Absent : ℕ → List ℕ → Type 0
Absent i [] = Unit
Absent i (x ∷ xs) = (i ≢ x) × Absent i xs

abbrev pub Unique : List ℕ → Type 0
Unique [] = Unit
Unique (x ∷ xs) = Absent x xs × Unique xs

-- The cells of `xs` are linked both ways, with `p` before them and `n` behind.
abbrev pub Part : (ℕ → Cell) → Option ℕ → List ℕ → Option ℕ → Type 0
Part cells p [] n = Unit
Part cells p (x ∷ xs) n =
    ((cells x).previous ≡ p) × ((cells x).next ≡ first xs n) × Part cells (some x) xs n

pub Absent-last_of : (i x : ℕ) (xs : List ℕ) → Absent i (x ∷ xs) → i ≢ last_of x xs
Absent-last_of i x [] (h, _) = h
Absent-last_of i x (y ∷ ys) (h, k) = Absent-last_of i y ys k

pub Absent-left : (i : ℕ) (xs ys : List ℕ) → Absent i (xs ++ ys) → Absent i xs
Absent-left i [] ys h = tt
Absent-left i (x ∷ xs) ys (h, k) = (h, Absent-left i xs ys k)

pub Absent-right : (i : ℕ) (xs ys : List ℕ) → Absent i (xs ++ ys) → Absent i ys
Absent-right i [] ys h = h
Absent-right i (x ∷ xs) ys (h, k) = Absent-right i xs ys k

pub Absent-append : (i : ℕ) (xs ys : List ℕ) → Absent i xs → Absent i ys → Absent i (xs ++ ys)
Absent-append i [] ys h k = k
Absent-append i (x ∷ xs) ys (h, h') k = (h, Absent-append i xs ys h' k)

-- Without one of its elements a list is still without repetition, and the element is in neither part.
pub Unique-without :
    (i : ℕ) (xs ys : List ℕ) → Unique (xs ++ (i ∷ ys)) → Unique (xs ++ ys) × Absent i (xs ++ ys)
Unique-without i [] ys (h, k) = (k, h)
Unique-without i (x ∷ xs) ys (h, k) =
    let (u, a) = Unique-without i xs ys k in
    let (apart, _) = Absent-right x xs (i ∷ ys) h in
    let away = Absent-right x xs (i ∷ ys) h in
    ((Absent-append x xs ys (Absent-left x xs (i ∷ ys) h) away.1, u), ((λ e. apart (sym e)), a))

pub Unique-parts : (xs ys : List ℕ) → Unique (xs ++ ys) → Unique xs × Unique ys
Unique-parts [] ys u = (tt, u)
Unique-parts (x ∷ xs) ys (a, u) =
    let (v, w) = Unique-parts xs ys u in ((Absent-left x xs ys a, v), w)

pub Unique-last : (i : ℕ) (xs : List ℕ) → Unique xs → Absent i xs → Unique (xs ++ (i ∷ []))
Unique-last i [] u a = (tt, tt)
Unique-last i (x ∷ xs) (h, u) (a, b) =
    (Absent-append x xs (i ∷ []) h ((λ e. a (sym e)), tt), Unique-last i xs u b)

pub first-append : (xs ys : List ℕ) (n : Option ℕ) → first (xs ++ ys) n ≡ first xs (first ys n)
first-append [] ys n = refl
first-append (x ∷ xs) ys n = refl

pub last-append :
    (p : Option ℕ) (xs : List ℕ) (y : ℕ) (ys : List ℕ)
    → last p (xs ++ (y ∷ ys)) ≡ some (last_of y ys)
last-append p [] y ys = refl
last-append p (x ∷ []) y ys = refl
last-append p (x ∷ (z ∷ zs)) y ys = last-append p (z ∷ zs) y ys

pub Part-split :
    (cells : ℕ → Cell) (p n : Option ℕ) (xs ys : List ℕ)
    → Part cells p (xs ++ ys) n
    → Part cells p xs (first ys n) × Part cells (last p xs) ys n
Part-split cells p n [] ys h = (tt, h)
Part-split cells p n (x ∷ []) ys (h, k, r) = ((h, k, tt), r)
Part-split cells p n (x ∷ (y ∷ xs)) ys (h, k, r) =
    let (a, b) = Part-split cells (some x) n (y ∷ xs) ys r in ((h, k, a), b)

pub Part-join :
    (cells : ℕ → Cell) (p n : Option ℕ) (xs ys : List ℕ)
    → Part cells p xs (first ys n)
    → Part cells (last p xs) ys n
    → Part cells p (xs ++ ys) n
Part-join cells p n [] ys h k = k
Part-join cells p n (x ∷ []) ys (h, e, _) k = (h, e, k)
Part-join cells p n (x ∷ (y ∷ xs)) ys (h, e, r) k =
    (h, e, Part-join cells (some x) n (y ∷ xs) ys r k)

-- A cell outside the part may change.
pub Part-set_cell :
    (cells : ℕ → Cell) (i : ℕ) (c : Cell) (p n : Option ℕ) (xs : List ℕ)
    → Absent i xs
    → Part cells p xs n
    → Part (set_cell i c cells) p xs n
Part-set_cell cells i c p n [] a h = tt
Part-set_cell cells i c p n (x ∷ xs) (d, a) (h, k, r) =
    (ground (arith, d, h), ground (arith, d, k), Part-set_cell cells i c (some x) n xs a r)

abbrev pub next_set : Option ℕ → Option ℕ → (ℕ → Cell) → ℕ → Cell
next_set none n cells = cells
next_set (some p) n cells = set_cell p (record (cells p) { next = n }) cells

abbrev pub previous_set : Option ℕ → Option ℕ → (ℕ → Cell) → ℕ → Cell
previous_set none p cells = cells
previous_set (some n) p cells = set_cell n (record (cells n) { previous = p }) cells

-- The last cell is linked to something else.
pub Part-next_set :
    (cells : ℕ → Cell) (p m n : Option ℕ) (x : ℕ) (xs : List ℕ)
    → Unique (x ∷ xs)
    → Part cells p (x ∷ xs) m
    → Part (next_set (some (last_of x xs)) n cells) p (x ∷ xs) n
Part-next_set cells p m n x [] u (h, k, r) = (ground (arith, h), ground arith, tt)
Part-next_set cells p m n x (y ∷ ys) (a, u) (h, k, r) =
    let away = Absent-last_of x y ys a in
    (ground (arith, h), ground (arith, k, away), Part-next_set cells (some x) m n y ys u r)

-- The first cell is linked back to something else.
pub Part-previous_set :
    (cells : ℕ → Cell) (p q n : Option ℕ) (x : ℕ) (xs : List ℕ)
    → Absent x xs
    → Part cells p (x ∷ xs) n
    → Part (previous_set (some x) q cells) q (x ∷ xs) n
Part-previous_set cells p q n x xs a (h, k, r) = (
  ground arith,
  ground (arith, k),
  Part-set_cell cells x (record (cells x) { previous = q }) (some x) n xs a r,
)
