-- ===== src/Process/Counts/Links.antt =====
-- src/embed.cpp with src/session_store.cpp: what the counts say of the references from a variable to its
-- session, and back.
use cyborgdb_embed.Prelude.{
  different, ℕ, ◌<◌, ◌≡◌, refl, sym, ap, ◌∙◌, inl, inr, Option, none, some, ltb, ltb→lt, lt→ltb,
  ◌==◌, ==_iff, Bool-cases, Memory, total_place, total_above, arith,
}
use cyborgdb_embed.Store.World.{Flights}
use cyborgdb_embed.Store.Changes.{none-some}
use cyborgdb_embed.Process.{Impl}
use cyborgdb_embed.Process.Counts.{
  names, holds, handles_of, Counted, names_self, names_other, holds_free,
}

-- A reference that counts is to the number.
named : (k : ℕ) (o : Option ℕ) → 0 < names k o → o ≡ some k
unfolding names
named k none pos = absurd (omega arith)
named k (some j) pos = elim (Bool-cases (j == k)) [
  | inl e ↦ ap (λ x. some x) ((==_iff j k).0 e)
  | inr e ↦ absurd (let z = names_other j k (different j k e) in omega arith)
]

holding_self : (a : Impl) → 0 < a.owners → holds a.session a ≡ 1
unfolding holds
holding_self a pos = rw (lt→ltb 0 a.owners pos, (==_iff a.session a.session).1 refl) refl

held_by : (p : ℕ) (a : Impl) → 0 < holds p a → (0 < a.owners) × (a.session ≡ p)
unfolding holds
held_by p a pos = elim (Bool-cases (ltb 0 a.owners)) [
  | inr free ↦ absurd (let e = holds_free p a (ground arith) in omega arith)
  | inl owned ↦ elim (Bool-cases (a.session == p)) [
    | inl same ↦ (ltb→lt 0 a.owners owned, (==_iff a.session p).0 same)
    | inr differ ↦ absurd (let z : holds p a ≡ 0 = rw (owned, differ) refl in omega arith)
  ]
]

module _ {embedders : Memory (Option ℕ)} {impls : Memory Impl} {next_impl : ℕ}
    {flights : Flights} where
  -- The `Impl` of a variable is owned.
  pub variable_owned :
      {owner holder : Option ℕ} (i k : ℕ)
      → Counted embedders impls next_impl flights owner holder
      → embedders i ≡ some k
      → 0 < (impls k).owners
  variable_owned i k c here = elim (Bool-cases (ltb i c.variables)) [
    | inr out ↦ absurd (none-some (sym (c.unused i (ground arith)) ∙ here))
    | inl within ↦
        let above = total_above (names k) embedders c.variables i (ltb→lt i c.variables within) in
        let one = ap (names k) here ∙ names_self k in let e = c.owned k in omega arith
  ]

  -- The session of an owned `Impl` has a handle.
  pub owned_held :
      {owner holder : Option ℕ} (k : ℕ)
      → Counted embedders impls next_impl flights owner holder
      → 0 < (impls k).owners
      → 0 < handles_of flights (impls k).session
  owned_held k c pos = elim (Bool-cases (ltb k next_impl)) [
    | inr out ↦ absurd (let e = c.fresh k (ground arith) in omega arith)
    | inl within ↦
        let p = (impls k).session in
        let above = total_above (holds p) impls next_impl k (ltb→lt k next_impl within) in
        let one = holding_self (impls k) pos in let e = c.held p in omega arith
  ]

  -- An `Impl` that is owned has a variable, where no reference is in hand.
  pub owned_variable :
      {holder : Option ℕ} (k : ℕ)
      → Counted embedders impls next_impl flights none holder
      → 0 < (impls k).owners
      → (i : ℕ) × (embedders i ≡ some k)
  unfolding names
  owned_variable k c pos =
      let e = c.owned k in
      let (i, _, counts) = total_place (names k) embedders c.variables (omega arith) in
      (i, named k (embedders i) counts)

  -- A session with a handle has an `Impl` that is owned, where no handle is in hand.
  pub held_owned :
      {owner : Option ℕ} (p : ℕ)
      → Counted embedders impls next_impl flights owner none
      → 0 < handles_of flights p
      → (k : ℕ) × (0 < (impls k).owners) × ((impls k).session ≡ p)
  unfolding names
  held_owned p c pos =
      let e = c.held p in
      let (k, _, counts) = total_place (holds p) impls next_impl (omega arith) in
      let (owned, same) = held_by p (impls k) counts in (k, owned, same)
