-- ===== src/Process/Drop.antt =====
-- src/session_store.cpp with src/embed.cpp: the end of a reference to a session, and of the session with the
-- last one.
use cyborgdb_embed.Prelude.{
  ℕ, ◌-◌, ◌<◌, ◌≡◌, ◌≢◌, refl, sym, ap, ◌∙◌, inl, inr, true, false, Option, none, some, ltb, lt→ltb,
  write, write_hit, write_miss, Bool-cases, Option-cases, arith,
}
use cyborgdb_embed.Float.{Float}
use cyborgdb_embed.Session.Loader.{Loader}
use cyborgdb_embed.Tokenizer.Shim.{Library}
use cyborgdb_embed.Store.World.{
  Stage, loading, made, broken, failed, Flight, Flights, use_count, flight_count, stage_count,
  is_live, World, dropped, drop_flight, step,
}
use cyborgdb_embed.Store.Invariant.{write_cases}
use cyborgdb_embed.Store.Branches.{at_found, at_none}
use cyborgdb_embed.Store.Ordered.{step-Sound}
use cyborgdb_embed.Process.{Process, drop_session}
use cyborgdb_embed.Process.Counts.{handles_of, names_self, handles_found, handles_gone}
use cyborgdb_embed.Process.Counts.Handles.{dropped_flights, drop-Counted}
use cyborgdb_embed.Process.Quiet.{Settled, Counts, Quiet, change-Calm, change_freed}

-- With no load and no call that waits, the references to a session are its handles.
stage_count_idle : (stage : Stage) → stage_count stage false 0 ≡ 0
stage_count_idle loading = refl
stage_count_idle made = refl
stage_count_idle broken = refl
stage_count_idle (failed s) = refl

abbrev count_of : Option Flight → ℕ
count_of o = elim o [ none ↦ 0 | some f ↦ flight_count f ]

pub flight_count_idle : (f : Flight) → f.loader ≡ false → f.waiters ≡ 0 → flight_count f ≡ f.handles
flight_count_idle f idle alone =
    let z : stage_count f.stage f.loader f.waiters ≡ 0 =
      rw (idle, alone) (stage_count_idle f.stage) in
    omega arith

pub use_count_idle :
    (flights : Flights) (p : ℕ) (f : Flight)
    → flights p ≡ some f
    → f.loader ≡ false
    → f.waiters ≡ 0
    → use_count flights p ≡ f.handles
use_count_idle flights p f here idle alone = ap count_of here ∙ flight_count_idle f idle alone

-- A session with a handle lives.
pub handles_live : (flights : Flights) (p : ℕ) → 0 < handles_of flights p → is_live flights p ≡ true
handles_live flights p pos = elim (Option-cases (flights p)) [
  | inl gone ↦ let z = handles_gone flights p gone in absurd (omega arith)
  | inr (f, here) ↦
      let e = handles_found flights p f here in
      ap (λ o. ltb 0 (count_of o)) here ∙ lt→ltb 0 (flight_count f) (omega arith)
]

pub dropped_store : (w : World) (p : ℕ) → (step w (dropped p)).0.store ≡ w.store
unfolding step drop_flight
dropped_store w p = elim (Option-cases (w.flights p)) [
  | inl gone ↦ ap (λ r. r.0.store) (at_none w p (λ f. drop_flight w p f) gone)
  | inr (f, here) ↦ ap (λ r. r.0.store) (at_found w p f (λ f. drop_flight w p f) here) ∙ go f
]
  where
    go : (f : Flight) → (drop_flight w p f).0.store ≡ w.store
    go f = elim (Bool-cases (ltb 0 f.handles)) [
      | inl held ↦ rw (drop_flight, held) refl
      | inr nobody ↦ rw (drop_flight, nobody) refl
    ]

module _ (fl : Float) (lib : Library) (loader : Loader fl lib) where
  abbrev Proc : Type 0
  Proc = Process fl lib loader

  abbrev IsQuiet : Proc → Type 0
  IsQuiet P = Quiet fl lib loader P

  abbrev IsSettled : Proc → Type 0
  IsSettled P = Settled fl lib loader P

  -- Other sessions than the one that is dropped are kept, and that one where it lives on.
  pub drop_other :
      (p q : ℕ) (P : Proc) → p ≢ q → (drop_session fl lib loader p P).sessions q ≡ P.sessions q
  unfolding drop_session
  drop_other p q P ne = elim (Bool-cases (is_live (step P.world (dropped p)).0.flights p)) [
    | inl lives ↦ rw lives refl
    | inr dead ↦ rw dead (write_miss P.sessions p q none ne)
  ]

  pub drop_live :
      (p : ℕ) (P : Proc)
      → 0 < handles_of (drop_session fl lib loader p P).world.flights p
      → (drop_session fl lib loader p P).sessions p ≡ P.sessions p
  unfolding drop_session
  drop_live p P held = rw (handles_live (step P.world (dropped p)).0.flights p held) refl

  drop_dead :
      (p : ℕ) (P : Proc)
      → is_live (step P.world (dropped p)).0.flights p ≡ false
      → (drop_session fl lib loader p P).sessions p ≡ none
  unfolding drop_session
  drop_dead p P dead = rw dead (write_hit P.sessions p none)

  -- The reference to a session in hand goes.
  pub drop_session-Quiet :
      (p : ℕ) (P : Proc)
      → IsSettled P
      → Counts fl lib loader P none (some p)
      → IsQuiet (drop_session fl lib loader p P)
  unfolding drop_session
  drop_session-Quiet p P q c = elim (Option-cases (P.world.flights p)) [
    | inl gone ↦
        let e = c.held p in
        let n = names_self p in let z = handles_gone P.world.flights p gone in absurd (omega arith)
    | inr (f, here) ↦
        let e = c.held p in
        let n = names_self p in
        let found = handles_found P.world.flights p f here in
        let g = record f { handles = f.handles - 1 } in
        let later = (step P.world (dropped p)).0.flights in
        let R = drop_session fl lib loader p P in
        let is : later ≡ write P.world.flights p (some g) =
          dropped_flights P.world p f here (omega arith) in
        let hit : later p ≡ some g =
          ap (λ (m : Flights). m p) is ∙ write_hit P.world.flights p (some g) in
        let left : handles_of later p ≡ g.handles = handles_found later p g hit in
        let calm = q.calm p f here in
        record {
          settled = record {
            sound = step-Sound P.world q.sound (dropped p);
            calm =
                change-Calm fl lib P.world.flights later P.sessions R.sessions p g
                  (λ j k there.
                    write_cases P.world.flights p j g k
                      (ap (λ (m : Flights). m j) (sym is) ∙ there))
                  (λ j ne. drop_other p j P ne) q.calm
                  (record {
                    idle = calm.idle;
                    alone = calm.alone;
                    broken_fits = calm.broken_fits;
                    kept = λ made held.
                        let (s, there, fits) = calm.kept made (omega arith) in
                        (s, drop_live p P (omega arith) ∙ there, fits);
                  });
            freed =
                change_freed fl lib P.world.flights later P.sessions R.sessions p
                  (λ j ne.
                    ap (λ (m : Flights). m j) is ∙ write_miss P.world.flights p j (some g) ne)
                  (λ j ne. drop_other p j P ne) q.freed
                  (λ none_left. drop_dead p P (
                    ap (λ n. ltb 0 n)
                      (use_count_idle later p g hit calm.idle calm.alone ∙ sym left ∙ none_left)));
          };
          counted = drop-Counted P.world p c;
        }
  ]
