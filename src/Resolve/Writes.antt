-- ===== src/Resolve/Writes.antt =====
-- src/resolve.cpp: a download writes its destination, and no other file.
use cyborgdb_embed.Prelude.{
  ℕ, zero, suc, ◌+◌, ◌≡◌, refl, sym, ap, ◌∙◌, inl, inr, false, List, [], ◌∷◌, ◌++◌, Option, none,
  some, Text, text_eq, text_eq_refl, arith,
}
use cyborgdb_embed.Status.{Status}
use cyborgdb_embed.Prelude.{true, ◌⊎◌, Bool-cases}
use cyborgdb_embed.Resolve.Download.{ca_bundle, auth_header}
use cyborgdb_embed.Resolve.Download.{
  Disk, put_file, remove_file, remove_at, System, Machine, download_once, download_from, download,
}
use cyborgdb_embed.Resolve.Retries.{some_pair, paused, from_cases}

-- A longer name is another name.
pub longer : (path more : Text) (c : ℕ) → text_eq (path ++ (c ∷ more)) path ≡ false
longer [] more c = refl
longer (a ∷ path) more c = ground (arith, longer path more c)

pub put_other :
    (disk : Disk) (p q : Text) (bytes : List ℕ)
    → text_eq p q ≡ false
    → put_file disk p bytes q ≡ disk q
unfolding put_file
put_other disk p q bytes h = rw h

pub put_self : (disk : Disk) (p : Text) (bytes : List ℕ) → put_file disk p bytes p ≡ some bytes
unfolding put_file
put_self disk p bytes = rw (text_eq_refl p)

pub remove_self : (disk : Disk) (p : Text) → remove_file disk p p ≡ none
unfolding remove_file
remove_self disk p = rw (text_eq_refl p)

pub remove_other : (disk : Disk) (p q : Text) → text_eq p q ≡ false → remove_file disk p q ≡ disk q
unfolding remove_file
remove_other disk p q h = rw h

-- A removal that may fail.
pub removed_other :
    (sys : System) (n : ℕ) (disk : Disk) (p q : Text)
    → text_eq p q ≡ false
    → remove_at sys n disk p q ≡ disk q
unfolding remove_at
removed_other sys n disk p q h = elim (Bool-cases (sys.keeps n p)) [
  | inl kept ↦ rw kept refl
  | inr gone ↦ rw gone (remove_other disk p q h)
]

-- The file is gone, or its removal failed.
pub removed_self :
    (sys : System) (n : ℕ) (disk : Disk) (p : Text)
    → (remove_at sys n disk p p ≡ none) ⊎ (sys.keeps n p ≡ true)
unfolding remove_at
removed_self sys n disk p = elim (Bool-cases (sys.keeps n p)) [
  | inl kept ↦ inr kept
  | inr gone ↦ inl (rw gone (remove_self disk p))
]

once_other :
    (sys : System) (url destination q : Text) (m : Machine)
    → text_eq destination q ≡ false
    → (download_once sys url destination m).1.disk q ≡ m.disk q
unfolding download_once put_file
once_other sys url destination q m h =
    let t = sys.perform m.transfers url (ca_bundle sys) (auth_header sys.vars url) in
    let written = put_file m.disk destination t.body in
    ground (
      arith,
      put_other m.disk destination q,
      removed_other sys (suc m.transfers) written destination q h,
    )

pub none-some : {A : Type 0} {a : A} → ◌≡◌ {A = Option A} none (some a) → ⊥
none-some e = cc

pub some_injective : {A : Type 0} {a b : A} → ◌≡◌ {A = Option A} (some a) (some b) → a ≡ b
some_injective e = cc

out_of_fuel :
    (sys : System) (url destination : Text) (attempt : ℕ) (m m' : Machine) (s : Status)
    → download_from sys url destination zero attempt m ≡ some (s, m')
    → ⊥
unfolding download_from
out_of_fuel sys url destination attempt m m' s e = cc

from_other :
    (sys : System) (url destination q : Text) (fuel attempt : ℕ) (m m' : Machine) (s : Status)
    → text_eq destination q ≡ false
    → download_from sys url destination fuel attempt m ≡ some (s, m')
    → m'.disk q ≡ m.disk q
from_other sys url destination q zero attempt m m' s h e =
    absurd (out_of_fuel sys url destination attempt m m' s e)
from_other sys url destination q (suc fuel) attempt m m' s h e =
    elim (from_cases sys url destination fuel attempt m) [
      | inl (stop, e') ↦
          ap (λ (x : Machine). x.disk q) (sym (some_pair (sym e' ∙ e)).1)
          ∙ once_other sys url destination q m h
      | inr (go, e') ↦
          from_other sys url destination q fuel (attempt + 1) (paused sys url destination attempt m)
            m' s h (sym e' ∙ e)
          ∙ once_other sys url destination q m h
    ]

pub download_other :
    (sys : System) (url destination q : Text) (m m' : Machine) (s : Status)
    → text_eq destination q ≡ false
    → download sys url destination m ≡ some (s, m')
    → m'.disk q ≡ m.disk q
unfolding download
download_other sys url destination q m m' s h e = from_other sys url destination q 5 1 m m' s h e
