-- ===== src/Process/Counts/Changes.antt =====
-- src/embed.cpp with src/session_store.cpp: the counts after a change of a variable and of an `Impl`.
use cyborgdb_embed.Prelude.{
  different, ℕ, zero, suc, ◌+◌, ◌-◌, ◌≤◌, ◌<◌, ◌≡◌, ◌≢◌, refl, sym, ap, ◌∙◌, inl, inr, true, false,
  Option, none, some, ltb, ltb→lt, ◌==◌, ==_iff, Bool-cases, Memory, write, write_hit, write_miss,
  total, total-write, arith,
}
use cyborgdb_embed.Store.World.{Flights}
use cyborgdb_embed.Process.{Impl}
use cyborgdb_embed.Process.Counts.{
  names, holds, handles_of, Counted, names_self, names_other, holds_owned, holds_free, holds_last,
  at_or_else,
}

module _ {embedders : Memory (Option ℕ)} {impls : Memory Impl} {next_impl : ℕ}
    {flights : Flights} where
  -- One variable more that is not in use.
  wider :
      {owner holder : Option ℕ} (c : Counted embedders impls next_impl flights owner holder)
      → (d : Counted embedders impls next_impl flights owner holder) × (d.variables
          ≡ suc c.variables)
  unfolding total names
  wider c = (
    record {
      variables = suc c.variables;
      unused = λ i h. c.unused i (omega arith);
      owned = λ k.
          let e = c.owned k in
          let z : names k (embedders c.variables) ≡ 0 =
            ap (names k) (c.unused c.variables (omega arith)) in
          omega arith;
      fresh = c.fresh;
      held = c.held;
    },
    refl,
  )

  enough :
      {owner holder : Option ℕ} (n : ℕ) (c : Counted embedders impls next_impl flights owner holder)
      → (d : Counted embedders impls next_impl flights owner holder) × (n ≤ d.variables)
  enough zero c = (c, omega arith)
  enough (suc n) c = let (d, le) = enough n c in let (e, same) = wider d in (e, omega arith)

  -- A variable takes the reference in hand, and gives its own.
  pub swap-Counted :
      {owner holder : Option ℕ} (i : ℕ)
      → Counted embedders impls next_impl flights owner holder
      → Counted (write embedders i owner) impls next_impl flights (embedders i) holder
  swap-Counted {owner = owner} i c =
      let (d, le) = enough (suc i) c in
      record {
        variables = d.variables;
        unused = λ j h. write_miss embedders i j owner (omega arith) ∙ d.unused j h;
        owned = λ k.
            let e = total-write (names k) embedders d.variables i owner le in
            let o = d.owned k in omega arith;
        fresh = d.fresh;
        held = d.held;
      }

  -- The handles change by what is in hand.
  pub flights-Counted :
      {owner holder other : Option ℕ} (later : Flights)
      → ((p : ℕ) → handles_of later p + names p holder ≡ handles_of flights p + names p other)
      → Counted embedders impls next_impl flights owner holder
      → Counted embedders impls next_impl later owner other
  flights-Counted later same c = record {
    variables = c.variables;
    unused = c.unused;
    owned = c.owned;
    fresh = c.fresh;
    held = λ p. let e = c.held p in let f = same p in omega arith;
  }

  -- An `Impl` changes by the owners in hand, and its hold on its session.
  impl-Counted :
      {owner other holder kept : Option ℕ} (k : ℕ) (v : Impl)
      → k < next_impl
      → v.owners + names k owner ≡ (impls k).owners + names k other
      → ((j : ℕ) → k ≢ j → names j owner ≡ names j other)
      → ((p : ℕ) → holds p v + names p kept ≡ holds p (impls k) + names p holder)
      → Counted embedders impls next_impl flights owner holder
      → Counted embedders (write impls k v) next_impl flights other kept
  impl-Counted {owner = owner} {other = other} k v lt here elsewhere hold c = record {
    variables = c.variables;
    unused = c.unused;
    owned =
        at_or_else
          (λ j. (write impls k v j).owners ≡ total (names j) embedders c.variables + names j other)
          k
          (let o = c.owned k in
            let w = ap (λ (x : Impl). x.owners) (write_hit impls k v) in omega arith)
          (λ j ne.
            let o = c.owned j in
            let w = ap (λ (x : Impl). x.owners) (write_miss impls k j v ne) in
            let h = elsewhere j ne in omega arith);
    fresh =
        λ j le. ap (λ (x : Impl). x.owners) (write_miss impls k j v (omega arith)) ∙ c.fresh j le;
    held = λ p.
        let e = c.held p in
        let t = total-write (holds p) impls next_impl k v lt in let h = hold p in omega arith;
  }

  owned_range :
      {owner holder : Option ℕ} (k : ℕ)
      → Counted embedders impls next_impl flights owner holder
      → 0 < (impls k).owners
      → k < next_impl
  owned_range k c pos = elim (Bool-cases (ltb k next_impl)) [
    | inl lt ↦ ltb→lt k next_impl lt
    | inr ge ↦ let e = c.fresh k (ground arith) in absurd (omega arith)
  ]

  -- An owned `Impl` gets an owner more.
  pub retain-Counted :
      {holder : Option ℕ} (k : ℕ)
      → 0 < (impls k).owners
      → Counted embedders impls next_impl flights none holder
      → Counted embedders
          (write impls k (record (impls k) { owners = (impls k).owners + 1 }))
          next_impl
          flights
          (some k)
          holder
  unfolding names
  retain-Counted {holder = holder} k pos c =
      let v = record (impls k) { owners = (impls k).owners + 1 } in
      impl-Counted {owner = none} {other = some k} k v (owned_range k c pos)
        (let n = names_self k in omega arith) (λ j ne. sym (names_other k j ne))
        (λ p. ap (λ n. n + names p holder) (holds_owned p v (impls k) refl (omega arith) pos)) c

  in_hand :
      {holder : Option ℕ} (k : ℕ)
      → Counted embedders impls next_impl flights (some k) holder
      → 0 < (impls k).owners
  in_hand k c = let e = c.owned k in let n = names_self k in omega arith

  -- An owner in hand goes, and others are left.
  pub fewer-Counted :
      (k : ℕ)
      → ((impls k).owners == 1) ≡ false
      → Counted embedders impls next_impl flights (some k) none
      → Counted embedders
          (write impls k (record (impls k) { owners = (impls k).owners - 1 }))
          next_impl
          flights
          none
          none
  unfolding names
  fewer-Counted k others c =
      let v = record (impls k) { owners = (impls k).owners - 1 } in
      let pos = in_hand k c in
      let ne = different (impls k).owners 1 others in
      impl-Counted k v (owned_range k c pos) (let n = names_self k in omega arith)
        (λ j ne. names_other k j ne)
        (λ p. ap (λ n. n + names p none) (holds_owned p v (impls k) refl (omega arith) pos)) c

  -- The last owner in hand goes: the reference to the session is in hand.
  pub last-Counted :
      (k : ℕ)
      → ((impls k).owners == 1) ≡ true
      → Counted embedders impls next_impl flights (some k) none
      → Counted embedders
          (write impls k (record (impls k) { owners = (impls k).owners - 1 }))
          next_impl
          flights
          none
          (some (impls k).session)
  unfolding names
  last-Counted k last c =
      let v = record (impls k) { owners = (impls k).owners - 1 } in
      let one = (==_iff (impls k).owners 1).0 last in
      impl-Counted k v (owned_range k c (in_hand k c)) (let n = names_self k in omega arith)
        (λ j ne. names_other k j ne)
        (λ p.
          let a = holds_free p v (omega arith) in let b = holds_last p (impls k) one in omega arith)
        c

  -- A number more for an `Impl`.
  grown :
      {holder : Option ℕ}
      → Counted embedders impls next_impl flights none holder
      → Counted embedders impls (suc next_impl) flights none holder
  unfolding total
  grown c = record {
    variables = c.variables;
    unused = c.unused;
    owned = c.owned;
    fresh = λ k le. c.fresh k (omega arith);
    held = λ p.
        let e = c.held p in
        let z = holds_free p (impls next_impl) (c.fresh next_impl (omega arith)) in omega arith;
  }

-- `make_shared<Impl>`: the reference to the session in hand goes to it.
pub new-Counted :
    {embedders : Memory (Option ℕ)} {impls : Memory Impl} {next_impl : ℕ} {flights : Flights}
    (p : ℕ)
    → Counted embedders impls next_impl flights none (some p)
    → Counted embedders
        (write impls next_impl (record { session = p; owners = 1 }))
        (suc next_impl)
        flights
        (some next_impl)
        none
unfolding names
new-Counted {impls = impls} {next_impl = n} p c =
    let v : Impl = record { session = p; owners = 1 } in
    let free = c.fresh n (omega arith) in
    impl-Counted n v (omega arith) (let e = names_self n in omega arith)
      (λ j ne. sym (names_other n j ne))
      (λ q. let a = holds_last q v refl in let b = holds_free q (impls n) free in omega arith)
      (grown c)
