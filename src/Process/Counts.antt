-- ===== src/Process/Counts.antt =====
-- src/embed.cpp with src/session_store.cpp: the owners of each `Impl` and the handles on each session,
-- counted from the program's variables. A reference in hand is one that a call has taken from a
-- variable, or is about to put into one.
pub mod Changes
pub mod Handles
pub mod Links
use cyborgdb_embed.Prelude.{
  different, ℕ, zero, suc, ◌+◌, ◌-◌, ◌≤◌, ◌<◌, ◌≡◌, ◌≢◌, refl, sym, ap, subst, ◌∙◌, ◌⊎◌, inl, inr,
  Bool, true, false, ◌&&◌, Option, none, some, ltb, ltb→lt, lt→ltb, ◌==◌, ==_iff, if◌then◌else◌,
  Bool-cases, Option-cases, Memory, write, write_hit, write_miss, total, total_cong, total_zero,
  total_place, total_above, total-write, total-write_outside, arith,
}
use cyborgdb_embed.Store.World.{Flight, Flights}
use cyborgdb_embed.Process.{Impl}

-- The reference is to `k`.
unfoldable pub names : ℕ → Option ℕ → ℕ
names k none = 0
names k (some j) = if j == k then 1 else 0

-- The `Impl` is owned, and its session is `p`.
unfoldable pub holds : ℕ → Impl → ℕ
holds p impl = if ltb 0 impl.owners && (impl.session == p) then 1 else 0

abbrev pub option_handles : Option Flight → ℕ
option_handles none = 0
option_handles (some f) = f.handles

unfoldable pub handles_of : Flights → ℕ → ℕ
handles_of flights p = option_handles (flights p)

pub record Counted (embedders : Memory (Option ℕ)) (impls : Memory Impl) (next_impl : ℕ)
    (flights : Flights) (owner holder : Option ℕ) : Type 0 where
  pub variables : ℕ
  pub unused : (i : ℕ) → variables ≤ i → embedders i ≡ none
  pub owned : (k : ℕ) → (impls k).owners ≡ total (names k) embedders variables + names k owner
  pub fresh : (k : ℕ) → next_impl ≤ k → (impls k).owners ≡ 0
  pub held : (p : ℕ) → handles_of flights p ≡ total (holds p) impls next_impl + names p holder

-- A place, and the others.
pub at_or_else : (P : ℕ → Type 0) (p : ℕ) → P p → ((q : ℕ) → p ≢ q → P q) → (q : ℕ) → P q
at_or_else P p here elsewhere q = elim (Bool-cases (p == q)) [
  | inl same ↦ subst P ((==_iff p q).0 same) here
  | inr differ ↦ elsewhere q (different p q differ)
]

pub names_self : (k : ℕ) → names k (some k) ≡ 1
unfolding names
names_self k = rw ((==_iff k k).1 refl)

pub names_other : (j k : ℕ) → j ≢ k → names k (some j) ≡ 0
unfolding names
names_other j k h = elim (Bool-cases (j == k)) [
  | inl e ↦ absurd (h ((==_iff j k).0 e))
  | inr e ↦ rw e
]

-- The handles after a write at `p`.
pub handles_here :
    (flights : Flights) (p : ℕ) (g : Flight) → handles_of (write flights p (some g)) p ≡ g.handles
unfolding handles_of
handles_here flights p g = ap option_handles (write_hit flights p (some g))

pub handles_elsewhere :
    (flights : Flights) (p q : ℕ) (o : Option Flight)
    → p ≢ q
    → handles_of (write flights p o) q ≡ handles_of flights q
unfolding handles_of
handles_elsewhere flights p q o ne = ap option_handles (write_miss flights p q o ne)

pub handles_found :
    (flights : Flights) (p : ℕ) (f : Flight) → flights p ≡ some f → handles_of flights p ≡ f.handles
unfolding handles_of
handles_found flights p f here = ap option_handles here

pub handles_gone : (flights : Flights) (p : ℕ) → flights p ≡ none → handles_of flights p ≡ 0
unfolding handles_of
handles_gone flights p gone = ap option_handles gone

-- What an `Impl` with owners holds does not depend on how many there are.
pub holds_owned :
    (p : ℕ) (a b : Impl)
    → a.session ≡ b.session
    → 0 < a.owners
    → 0 < b.owners
    → holds p a ≡ holds p b
unfolding holds
holds_owned p a b same x y = rw (lt→ltb 0 a.owners x, lt→ltb 0 b.owners y, same) refl

pub holds_free : (p : ℕ) (a : Impl) → a.owners ≡ 0 → holds p a ≡ 0
unfolding holds
holds_free p a e = rw (e) refl

pub holds_last : (p : ℕ) (a : Impl) → a.owners ≡ 1 → holds p a ≡ names p (some a.session)
unfolding holds names
holds_last p a e = rw (e) refl
