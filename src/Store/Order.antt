-- ===== src/Store/Order.antt =====
-- src/session_store.cpp: `entries_` as the ordered map that it is: the order of the keys, each key once, and
-- what an insertion and an erasure keep of it.
use cyborgdb_embed.Prelude.{
  ◌≡◌, refl, sym, ap₂, subst, inl, inr, Bool, true, false, ◌&&◌, List, [], ◌∷◌, some, Bool-cases,
  arith,
}
use mathlib.Core.List.{Memᴰ}
use mathlib.Core.List.Memᴰ
use cyborgdb_embed.Store.{Key, Entry, key_lt, key_eq, find, insert, erase}
use cyborgdb_embed.Store.Keys.{key_eq_iff, key_lt_strict}
use cyborgdb_embed.Store.Changes.{none-some, some_injective}

-- Every key is above `k`.
unfoldable pub below : Key → List (Key × Entry) → Bool
below k [] = true
below k ((j, e) ∷ m) = key_lt k j && below k m

unfoldable pub is_increasing : List (Key × Entry) → Bool
unfolding below
is_increasing [] = true
is_increasing ((k, e) ∷ m) = below k m && is_increasing m

pub both : (a b : Bool) → a ≡ true → b ≡ true → (a && b) ≡ true
both a b p q = rw (p, q) refl

pub parts : (a b : Bool) → (a && b) ≡ true → (a ≡ true) × (b ≡ true)
parts a b h = ground arith

pub below_trans :
    (i k : Key) (m : List (Key × Entry)) → key_lt i k ≡ true → below k m ≡ true → below i m ≡ true
unfolding below
below_trans i k [] lt h = refl
below_trans i k ((j, e) ∷ m) lt h =
    let (kj, rest) = parts (key_lt k j) (below k m) h in
    both (key_lt i j) (below i m) ((key_lt_strict i k j).1 lt kj) (below_trans i k m lt rest)

below-insert :
    (i k : Key) (e : Entry) (m : List (Key × Entry))
    → key_lt i k ≡ true
    → below i m ≡ true
    → below i (insert k e m) ≡ true
unfolding below insert
below-insert i k e [] lt h = both (key_lt i k) true lt refl
below-insert i k e ((j, f) ∷ m) lt h =
    let (ij, rest) = parts (key_lt i j) (below i m) h in
    let deep = below-insert i k e m lt rest in ground arith

below-erase : (i k : Key) (m : List (Key × Entry)) → below i m ≡ true → below i (erase k m) ≡ true
unfolding below erase
below-erase i k [] h = refl
below-erase i k ((j, f) ∷ m) h =
    let (ij, rest) = parts (key_lt i j) (below i m) h in
    let deep = below-erase i k m rest in ground arith

above : (j k : Key) → key_eq j k ≡ false → key_lt k j ≡ false → key_lt j k ≡ true
unfolding key_eq
above j k other ge = ground arith

pub is_increasing-insert :
    (k : Key) (e : Entry) (m : List (Key × Entry))
    → is_increasing m ≡ true
    → is_increasing (insert k e m) ≡ true
unfolding is_increasing insert below
is_increasing-insert k e [] h = refl
is_increasing-insert k e ((j, f) ∷ m) h =
    let (low, rest) = parts (below j m) (is_increasing m) h in
    elim (Bool-cases (key_eq j k)) [
      | inl same ↦ rw same (
          both (below k m) (is_increasing m)
            (subst (λ x. below x m ≡ true) ((key_eq_iff j k).0 same) low) rest)
      | inr other ↦ elim (Bool-cases (key_lt k j)) [
        | inl lt ↦
            rw (other, lt)
              (both (key_lt k j && below k m) (below j m && is_increasing m)
                (both (key_lt k j) (below k m) lt (below_trans k j m lt low)) h)
        | inr ge ↦
            rw (other, ge)
              (both (below j (insert k e m)) (is_increasing (insert k e m))
                (below-insert j k e m (above j k other ge) low) (is_increasing-insert k e m rest))
      ]
    ]

pub is_increasing-erase :
    (k : Key) (m : List (Key × Entry)) → is_increasing m ≡ true → is_increasing (erase k m) ≡ true
unfolding is_increasing erase
is_increasing-erase k [] h = refl
is_increasing-erase k ((j, f) ∷ m) h =
    let (low, rest) = parts (below j m) (is_increasing m) h in
    let deep = is_increasing-erase k m rest in let still = below-erase j k m low in ground arith

-- A member is above what its list is above.
below-mem :
    (i k : Key) (e : Entry) (m : List (Key × Entry))
    → below i m ≡ true
    → Memᴰ (k, e) m
    → key_lt i k ≡ true
unfolding below
below-mem i k e [] h there = elim there [ ]
below-mem i k e ((j, f) ∷ m) h there =
    let (ij, rest) = parts (key_lt i j) (below i m) h in
    elim (Memᴰ.cases_cons there) [
      | inl same ↦ subst (λ (x : Key × Entry). key_lt i x.0 ≡ true) (sym same) ij
      | inr deep ↦ below-mem i k e m rest deep
    ]

apart : (j k : Key) → key_lt j k ≡ true → key_eq j k ≡ false
unfolding key_eq
apart j k lt = rw lt refl

-- What an entry of the list says is what a lookup finds.
pub find_mem :
    (k : Key) (e : Entry) (m : List (Key × Entry))
    → is_increasing m ≡ true
    → Memᴰ (k, e) m
    → find k m ≡ some e
unfolding is_increasing find
find_mem k e [] h there = elim there [ ]
find_mem k e ((j, f) ∷ m) h there =
    let (low, rest) = parts (below j m) (is_increasing m) h in
    elim (Memᴰ.cases_cons there) [
      | inl same ↦
          subst (λ (x : Key × Entry). find x.0 ((j, f) ∷ m) ≡ some x.1) (sym same)
            (rw ((key_eq_iff j j).1 refl) refl)
      | inr deep ↦ rw (apart j k (below-mem j k e m low deep)) (find_mem k e m rest deep)
    ]

pub mem_find : (k : Key) (e : Entry) (m : List (Key × Entry)) → find k m ≡ some e → Memᴰ (k, e) m
unfolding find
mem_find k e [] found = absurd (none-some found)
mem_find k e ((j, f) ∷ m) found = elim (Bool-cases (key_eq j k)) [
  | inl same ↦ Memᴰ.head (
      ap₂ (λ a b. (a, b)) (sym ((key_eq_iff j k).0 same)) (sym (some_injective (rw same at found))))
  | inr other ↦ Memᴰ.tail (mem_find k e m (rw other at found))
]
