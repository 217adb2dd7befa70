-- ===== src/Process/Counts/Handles.antt =====
-- src/session_store.cpp with src/embed.cpp: the counts after a change of a session's handles.
use cyborgdb_embed.Prelude.{
  ℕ, ◌+◌, ◌-◌, ◌<◌, ◌≡◌, ◌≢◌, refl, ap, ◌∙◌, inl, inr, Option, none, some, lt→ltb, Option-cases,
  Memory, write, arith,
}
use cyborgdb_embed.Store.Branches.{at_found}
use cyborgdb_embed.Store.World.{Flight, Flights, World, dropped, drop_flight, step}
use cyborgdb_embed.Process.{Impl}
use cyborgdb_embed.Process.Counts.{
  names, handles_of, Counted, names_self, names_other, handles_here, handles_elsewhere,
  handles_found, handles_gone, at_or_else, option_handles,
}
use cyborgdb_embed.Process.Counts.Changes.{flights-Counted}

pub dropped_flights :
    (w : World) (p : ℕ) (f : Flight)
    → w.flights p ≡ some f
    → 0 < f.handles
    → (step w (dropped p)).0.flights
      ≡ write w.flights p (some (record f { handles = f.handles - 1 }))
unfolding step drop_flight
dropped_flights w p f here pos =
    rw (at_found w p f (λ g. drop_flight w p g) here, lt→ltb 0 f.handles pos) refl

-- A session loses a handle that it has.
dropped_handles :
    (w : World) (p q : ℕ)
    → 0 < handles_of w.flights p
    → handles_of (step w (dropped p)).0.flights q + names q (some p) ≡ handles_of w.flights q
dropped_handles w p q pos = elim (Option-cases (w.flights p)) [
  | inl gone ↦ let z = handles_gone w.flights p gone in absurd (omega arith)
  | inr (f, here) ↦
      let found = handles_found w.flights p f here in
      let g = record f { handles = f.handles - 1 } in
      let e = dropped_flights w p f here (omega arith) in
      ap (λ (m : Flights). handles_of m q + names q (some p)) e
      ∙ at_or_else
          (λ x.
            handles_of (write w.flights p (some g)) x + names x (some p) ≡ handles_of w.flights x)
          p (let a = handles_here w.flights p g in let b = names_self p in omega arith)
          (λ x ne.
            let a = handles_elsewhere w.flights p x (some g) ne in
            let b = names_other p x ne in omega arith)
          q
]

-- The reference to a session in hand goes.
pub drop-Counted :
    {embedders : Memory (Option ℕ)} {impls : Memory Impl} {next_impl : ℕ} (w : World) (p : ℕ)
    → Counted embedders impls next_impl w.flights none (some p)
    → Counted embedders impls next_impl (step w (dropped p)).0.flights none none
unfolding names
drop-Counted w p c =
    flights-Counted (step w (dropped p)).0.flights
      (λ q.
        dropped_handles w p q (let e = c.held p in let n = names_self p in omega arith)
        ∙ omega arith)
      c

-- A session gets a handle, which is in hand.
pub take-Counted :
    {embedders : Memory (Option ℕ)} {impls : Memory Impl} {next_impl : ℕ} {flights : Flights}
    (later : Flights) (p : ℕ)
    → handles_of later p ≡ handles_of flights p + 1
    → ((q : ℕ) → p ≢ q → later q ≡ flights q)
    → Counted embedders impls next_impl flights none none
    → Counted embedders impls next_impl later none (some p)
unfolding names handles_of
take-Counted {flights = flights} later p more elsewhere c =
    flights-Counted later
      (at_or_else (λ q. handles_of later q + names q none ≡ handles_of flights q + names q (some p))
        p (let n = names_self p in omega arith)
        (λ q ne.
          let n = names_other p q ne in let e = ap option_handles (elsewhere q ne) in omega arith))
      c

-- The flight `p` changes, and not its handles.
pub keep-Counted :
    {embedders : Memory (Option ℕ)} {impls : Memory Impl} {next_impl : ℕ} {flights : Flights}
    (later : Flights) (p : ℕ)
    → handles_of later p ≡ handles_of flights p
    → ((q : ℕ) → p ≢ q → later q ≡ flights q)
    → Counted embedders impls next_impl flights none none
    → Counted embedders impls next_impl later none none
unfolding handles_of
keep-Counted {flights = flights} later p same elsewhere c =
    flights-Counted later
      (λ q.
        ap (λ n. n + names q none)
          (at_or_else (λ x. handles_of later x ≡ handles_of flights x) p same
            (λ x ne. ap option_handles (elsewhere x ne)) q))
      c
