-- ===== src/Partitions/Coverage.antt =====
-- The even split of packages/core/src/partition-helpers.ts deals every item to one partition.
use native.Mathlib.Nat.{
  div-lt_iff_lt-mul, div-mul-le_self, le-div_iff_mul-le, le_trans, mul-le-mul_right,
  mul-div_cancel_left, zero-div, zero-mul, lt-div-mul-add,
}
use native.Mathlib.Numerals.{add-one}
use nest_batch.Prelude.{
  ℕ, zero, suc, ◌+◌, ◌*◌, ◌/◌, ◌≤◌, ◌<◌, ◌≡◌, inl, inr, ok, arith, ltb, ltb→lt, Bool-cases,
}
use nest_batch.Partitions.{default_range}

-- The first item of partition `i`.
abbrev start : ℕ → ℕ → ℕ → ℕ
start n total i = (i * total) / n

-- Item `k` falls into the range that the split gives partition `i`.
pub record Owns (n total i k : ℕ) : Type 0 where
  pub index_lt : i < n
  pub first : ℕ
  pub last : ℕ
  pub split : default_range i n total ≡ ok (first, last)
  pub first_le : first ≤ k
  pub lt_last : k < last

default_range_in_range :
    (n total i : ℕ) → i < n → default_range i n total ≡ ok (start n total i, start n total (i + 1))
unfolding default_range
default_range_in_range n total i h = ground arith

owner_below : (n total k m : ℕ) → m ≤ n → k < start n total m → (i : ℕ) × Owns n total i k
owner_below n total k zero h lt = absurd (omega (arith, zero-mul total, zero-div n))
owner_below n total k (suc m) h lt = elim (Bool-cases (ltb k (start n total m))) [
  | inl below ↦ owner_below n total k m (omega arith) (ltb→lt _ _ below)
  | inr above ↦ (
    m,
    record {
      index_lt = omega arith;
      first = start n total m;
      last = start n total (m + 1);
      split = default_range_in_range n total m (omega arith);
      first_le = ground arith;
      lt_last = rw add-one lt;
    },
  )
]

div_mono : (n : ℕ) {a b : ℕ} → 0 < n → a ≤ b → a / n ≤ b / n
div_mono n {a} pos h = (le-div_iff_mul-le pos).1 (le_trans (div-mul-le_self a n) h)

start_mono : (n total : ℕ) {i j : ℕ} → 0 < n → i ≤ j → start n total i ≤ start n total j
start_mono n total pos h = div_mono n pos (mul-le-mul_right total h)

-- For a positive count, the even split gives every item below the total to some partition.
pub default_range_covers : (n total k : ℕ) → 0 < n → k < total → (i : ℕ) × Owns n total i k
default_range_covers n total k pos h =
    owner_below n total k n (omega arith) (omega (arith, mul-div_cancel_left total pos))

default_range_inv :
    (n total i : ℕ) {first last : ℕ}
    → default_range i n total ≡ ok (first, last)
    → (i < n) × (first ≡ start n total i) × (last ≡ start n total (i + 1))
unfolding default_range
default_range_inv n total i h = ground arith

ordered : (n total k : ℕ) {i j : ℕ} → Owns n total i k → Owns n total j k → ¬ (i < j)
ordered n total k {i} {j} a b lt =
    let (i_lt, _, a_last) = default_range_inv n total i a.split in
    let (_, b_first, _) = default_range_inv n total j b.split in
    omega (
      arith,
      a.lt_last,
      b.first_le,
      start_mono n total {i = i + 1} {j = j} (omega arith) (omega arith),
    )

-- The even split gives no item to two partitions.
pub default_range_disjoint : (n total k i j : ℕ) → Owns n total i k → Owns n total j k → i ≡ j
default_range_disjoint n total k i j a b =
    omega (arith, ordered n total k a b, ordered n total k b a)

add_div_bounds :
    (n a b : ℕ) → 0 < n → (a / n + b / n ≤ (a + b) / n) × ((a + b) / n ≤ a / n + b / n + 1)
add_div_bounds n a b pos = (
  (le-div_iff_mul-le pos).1 (omega (arith, div-mul-le_self a n, div-mul-le_self b n)),
  omega (
    arith,
    (div-lt_iff_lt-mul {x = a + b} {y = a / n + b / n + 2} pos).1
        (omega (arith, lt-div-mul-add {a = a} pos, lt-div-mul-add {a = b} pos)),
  ),
)

-- Every range of the even split holds the quotient of the total by the count, or one item more.
pub default_range_balanced :
    (n total i : ℕ) {first last : ℕ}
    → default_range i n total ≡ ok (first, last)
    → (first + total / n ≤ last) × (last ≤ first + total / n + 1)
default_range_balanced n total i {last = last} h =
    let (i_lt, e, f) = default_range_inv n total i h in
    let (low, high) = add_div_bounds n (i * total) total (omega arith) in
    let g : (i + 1) * total ≡ i * total + total = omega arith in
    let f' : last ≡ (i * total + total) / n = rw g at f in (omega arith, omega arith)
