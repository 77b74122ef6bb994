-- ===== src/Mppc/Copy.antt =====
-- source/mppc.c: the copy of a match inside the history.
use rdesktopce_rdp.Prelude.{
  ℕ, zero, suc, ◌+◌, ◌≡◌, ◌≢◌, ◌≤◌, ◌<◌, none, some, arith, ltb, lt→ltb, if◌then◌else◌,
}
use rdesktopce_rdp.Mppc.{dict_size, Hist, write, copy}

pub write-hit : (h : Hist) (i v : ℕ) → write h i v i ≡ v
write-hit h i v = ground arith

pub write-miss : (h : Hist) (i v j : ℕ) → ¬ (i ≡ j) → write h i v j ≡ h j
write-miss h i v j p = ground arith

-- What `copy n k next h` gives as `(next', h')`: `next'` is `n` further, no octet outside
-- `next .. next + n` changed, and octet `next + i` is octet `k + i`: of the new history where the
-- source begins below the end, so that a match that reaches into its own copy repeats it, and of the old
-- one where it does not.
pub record Copied (n k next : ℕ) (h h' : Hist) (next' : ℕ) : Type 0 where
  pub ends : next' ≡ next + n
  pub before : (j : ℕ) → j < next → h' j ≡ h j
  pub after : (j : ℕ) → next + n ≤ j → h' j ≡ h j
  pub copies : (i : ℕ) → i < n → h' (next + i) ≡ (if ltb k next then h' (k + i) else h (k + i))

copies_step :
    (n k next i : ℕ) (h h' : Hist) (next' : ℕ)
    → Copied n (k + 1) (next + 1) (write h next (h k)) h' next'
    → i < suc n
    → h' (next + i) ≡ (if ltb k next then h' (k + i) else h (k + i))
copies_step n k next zero h h' next' c p =
    ground (arith, c.before next, c.before k, write-hit h next (h k), write-miss h next (h k) k)
copies_step n k next (suc i) h h' next' c p =
    ground (arith, c.copies i, write-miss h next (h k) (k + 1 + i))

copy_inner :
    (n k next : ℕ) (h h' : Hist) (next' : ℕ)
    → copy (suc n) k next h ≡ some (next', h')
    → copy n (k + 1) (next + 1) (write h next (h k)) ≡ some (next', h')
unfolding copy
copy_inner n k next h h' next' e = ground arith

-- The copy of a match that does not fault moves the end by its length, changes no other octet, and
-- makes each new octet equal to the one at the same distance from the source: of the new history
-- where the source begins below the end, so that a match reaching into its own copy repeats it,
-- and of the old one otherwise.
pub copy-Copied :
    (n k next : ℕ) (h h' : Hist) (next' : ℕ)
    → copy n k next h ≡ some (next', h')
    → Copied n k next h h' next'
unfolding copy
copy-Copied zero k next h h' next' e = record {
  ends = ground arith;
  before = λ j p. ground arith;
  after = λ j p. ground arith;
  copies = λ i p. ground arith;
}
copy-Copied (suc n) k next h h' next' e =
    let c =
      copy-Copied n (k + 1) (next + 1) (write h next (h k)) h' next'
        (copy_inner n k next h h' next' e) in
    record {
      ends = omega (arith, c.ends);
      before = λ j p. ground (arith, c.before j, write-miss h next (h k) j);
      after = λ j p. ground (arith, c.after j, write-miss h next (h k) j);
      copies = λ i p. copies_step n k next i h h' next' c p;
    }

-- The copy is no fault where its octets are inside the history.
pub copy_defined :
    (n k next : ℕ) (h : Hist) → k + n ≤ dict_size → next + n ≤ dict_size → copy n k next h ≢ none
unfolding copy
copy_defined zero k next h p q e = ground arith
copy_defined (suc n) k next h p q e = ground (
  arith,
  copy_defined n (k + 1) (next + 1) (write h next (h k)),
  lt→ltb k dict_size,
  lt→ltb next dict_size,
)
