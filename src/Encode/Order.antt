-- ===== src/Encode/Order.antt =====
-- src/session_ort.cpp, `OrtSession::encode`: the sort by length neither loses nor invents an index,
-- and orders them by length, equal lengths in the order of the call.
use mathlib.Core.List.{Perm, perm_middle, append-nil}
use mathlib.Core.List.Perm
use cyborgdb_embed.Prelude.{
  ℕ, zero, suc, ◌+◌, ◌<◌, ◌≤◌, ◌≡◌, refl, ◌⊎◌, false, ◌||◌, List, [], ◌∷◌, ◌++◌, ◌==◌, ltb,
  if◌then◌else◌, All, length, range, contains, arith,
}
use cyborgdb_embed.Encode.{insert_by, insert_all, stable_sort}

-- The order that the sort establishes: by size, and by index where sizes are equal.
abbrev pub Before : (ℕ → ℕ) → ℕ → ℕ → Type 0
Before size i j = (size i < size j) ⊎ (size i ≡ size j) × (i < j)

abbrev pub IsOrdered : (ℕ → ℕ) → List ℕ → Type 0
IsOrdered size [] = Unit
IsOrdered size (i ∷ is) = All (Before size i) is × IsOrdered size is

module _ (size : ℕ → ℕ) where
  contains-insert_by :
      (k i : ℕ) (xs : List ℕ) → contains k (insert_by size i xs) ≡ (k == i || contains k xs)
  unfolding insert_by
  contains-insert_by k i [] = refl
  contains-insert_by k i (x ∷ xs) = ground (arith, contains-insert_by k i xs)

  contains-insert_all :
      (k : ℕ) (is sorted : List ℕ)
      → contains k (insert_all size is sorted) ≡ (contains k is || contains k sorted)
  unfolding insert_all
  contains-insert_all k [] sorted = refl
  contains-insert_all k (i ∷ is) sorted =
      ground
        (arith, contains-insert_all k is (insert_by size i sorted), contains-insert_by k i sorted)

  pub contains-stable_sort :
      (k : ℕ) (is : List ℕ) → contains k (stable_sort size is) ≡ contains k is
  unfolding stable_sort
  contains-stable_sort k is = ground (arith, contains-insert_all k is [])

  insert_by-perm : (i : ℕ) (xs : List ℕ) → Perm (insert_by size i xs) (i ∷ xs)
  unfolding insert_by
  insert_by-perm i [] = Perm.rfl
  insert_by-perm i (x ∷ xs) =
      let later = Perm.trans (Perm.cons x (insert_by-perm i xs)) (Perm.swap i x xs) in
      ground (arith, later, Perm.refl (i ∷ x ∷ xs))

  insert_all-perm : (is sorted : List ℕ) → Perm (insert_all size is sorted) (is ++ sorted)
  unfolding insert_all
  insert_all-perm [] sorted = Perm.rfl
  insert_all-perm (i ∷ is) sorted =
      Perm.trans (insert_all-perm is (insert_by size i sorted))
        (Perm.trans (Perm.append_left is (insert_by-perm i sorted)) (perm_middle is sorted))

  -- The indices are rearranged.
  stable_sort-perm : (is : List ℕ) → Perm (stable_sort size is) is
  unfolding stable_sort
  stable_sort-perm is = rw append-nil at (insert_all-perm is [])

  insert_by-All :
      (P : ℕ → Type 0) (i : ℕ) (xs : List ℕ) → P i → All P xs → All P (insert_by size i xs)
  unfolding insert_by
  insert_by-All P i [] p all = (p, tt)
  insert_by-All P i (x ∷ xs) p all = ground (arith, insert_by-All P i xs p all.1)

  Before-All :
      (i x : ℕ) (xs : List ℕ) → size i < size x → All (Before size x) xs → All (Before size i) xs
  Before-All i x [] h b = tt
  Before-All i x (y ∷ ys) h b = (omega arith, Before-All i x ys h b.1)

  insert_by-IsOrdered :
      (i : ℕ) (xs : List ℕ)
      → All (λ x. x < i) xs
      → IsOrdered size xs
      → IsOrdered size (insert_by size i xs)
  unfolding insert_by
  insert_by-IsOrdered i [] below o = (tt, tt)
  insert_by-IsOrdered i (x ∷ xs) below o = ground (
    arith,
    Before-All i x xs,
    insert_by-IsOrdered i xs below.1 o.1,
    insert_by-All (Before size x) i xs,
  )

  All-lt_suc : (i : ℕ) (xs : List ℕ) → All (λ x. x < i) xs → All (λ x. x < suc i) xs
  All-lt_suc i [] h = tt
  All-lt_suc i (x ∷ xs) h = (omega arith, All-lt_suc i xs h.1)

  insert_all-IsOrdered :
      (n i : ℕ) (sorted : List ℕ)
      → All (λ x. x < i) sorted
      → IsOrdered size sorted
      → IsOrdered size (insert_all size (range i n) sorted)
  unfolding insert_all
  insert_all-IsOrdered zero i sorted below o = o
  insert_all-IsOrdered (suc n) i sorted below o =
      insert_all-IsOrdered n (suc i) (insert_by size i sorted)
        (insert_by-All (λ x. x < suc i) i sorted (omega arith) (All-lt_suc i sorted below))
        (insert_by-IsOrdered i sorted below o)

  -- The sort of 0, … , n - 1 is by size, and stable.
  stable_sort-IsOrdered : (n : ℕ) → IsOrdered size (stable_sort size (range 0 n))
  unfolding stable_sort
  stable_sort-IsOrdered n = insert_all-IsOrdered n 0 [] tt tt

  -- The order that the batches take is a rearrangement of 0, … , n - 1, by size, and indices of the same
  -- size keep their order.
  pub stable_sort_lem :
      (n : ℕ)
      → Perm (stable_sort size (range 0 n)) (range 0 n)
        × IsOrdered size (stable_sort size (range 0 n))
  stable_sort_lem n = (stable_sort-perm (range 0 n), stable_sort-IsOrdered n)

pub contains-range :
    (k i n : ℕ) → contains k (range i n) ≡ (if ltb k i then false else ltb k (i + n))
contains-range k i zero = ground arith
contains-range k i (suc n) = ground (arith, contains-range k (suc i) n)

All-range : (P : ℕ → Type 0) (n i m : ℕ) → i + n ≤ m → ((k : ℕ) → k < m → P k) → All P (range i n)
All-range P zero i m h p = tt
All-range P (suc n) i m h p = (p i (omega arith), All-range P n (suc i) m (omega arith) p)

insert_all-All :
    (size : ℕ → ℕ) (P : ℕ → Type 0) (is sorted : List ℕ)
    → All P is
    → All P sorted
    → All P (insert_all size is sorted)
unfolding insert_all
insert_all-All size P [] sorted h s = s
insert_all-All size P (i ∷ is) sorted h s =
    insert_all-All size P is (insert_by size i sorted) h.1 (insert_by-All size P i sorted h.0 s)

-- What holds below the number of texts holds of every index in the order.
pub stable_sort-All :
    (size : ℕ → ℕ) (P : ℕ → Type 0) (n : ℕ)
    → ((k : ℕ) → k < n → P k)
    → All P (stable_sort size (range 0 n))
unfolding stable_sort
stable_sort-All size P n p =
    insert_all-All size P (range 0 n) [] (All-range P n 0 n (omega arith) p) tt

length-insert_by :
    (size : ℕ → ℕ) (i : ℕ) (xs : List ℕ) → length (insert_by size i xs) ≡ suc (length xs)
unfolding insert_by
length-insert_by size i [] = refl
length-insert_by size i (x ∷ xs) = ground (arith, length-insert_by size i xs)

length-insert_all :
    (size : ℕ → ℕ) (n i : ℕ) (sorted : List ℕ)
    → length (insert_all size (range i n) sorted) ≡ n + length sorted
unfolding insert_all
length-insert_all size zero i sorted = omega arith
length-insert_all size (suc n) i sorted = omega (
  arith,
  length-insert_all size n (suc i) (insert_by size i sorted),
  length-insert_by size i sorted,
)

pub length-stable_sort : (size : ℕ → ℕ) (n : ℕ) → length (stable_sort size (range 0 n)) ≡ n
unfolding stable_sort
length-stable_sort size n = omega (arith, length-insert_all size n 0 [])
