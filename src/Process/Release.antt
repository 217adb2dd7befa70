-- ===== src/Process/Release.antt =====
-- src/embed.cpp, the copies of `Embedder`: what an assignment and the end of an owner leave behind.
use cyborgdb_embed.Prelude.{
  different, ℕ, ◌-◌, ◌<◌, ◌≡◌, refl, ap, subst, ◌∙◌, inl, inr, Option, none, some, ◌==◌, ==_iff,
  Memory, write, write_hit, write_miss, Bool-cases,
}
use cyborgdb_embed.Float.{Float}
use cyborgdb_embed.Session.Loader.{Loader}
use cyborgdb_embed.Tokenizer.Shim.{Library}
use cyborgdb_embed.Process.{Process, Impl, drop_session, release, assign, retain, embedder}
use cyborgdb_embed.Process.Counts.{handles_of, at_or_else}
use cyborgdb_embed.Process.Counts.Changes.{
  fewer-Counted, last-Counted, swap-Counted, retain-Counted,
}
use cyborgdb_embed.Process.Counts.Links.{variable_owned, owned_held}
use cyborgdb_embed.Process.Quiet.{Settled, Counts, Quiet}
use cyborgdb_embed.Process.Drop.{dropped_store, drop_other, drop_live, drop_session-Quiet}

module _ (fl : Float) (lib : Library) (loader : Loader fl lib) where
  abbrev Proc : Type 0
  Proc = Process fl lib loader

  abbrev IsQuiet : Proc → Type 0
  IsQuiet P = Quiet fl lib loader P

  abbrev IsSettled : Proc → Type 0
  IsSettled P = Settled fl lib loader P

  -- A reference to an `Impl` in hand goes.
  pub release-Quiet :
      (owner : Option ℕ) (P : Proc)
      → IsSettled P
      → Counts fl lib loader P owner none
      → IsQuiet (release fl lib loader owner P)
  unfolding release
  release-Quiet none P q c = record { settled = q; counted = c }
  release-Quiet (some k) P q c = elim (Bool-cases ((P.impls k).owners == 1)) [
    | inr others ↦ rw others (record {
      settled = record { sound = q.sound; calm = q.calm; freed = q.freed };
      counted = fewer-Counted k others c;
    })
    | inl last ↦ rw last (
        drop_session-Quiet fl lib loader (P.impls k).session
          (record P {
            impls = write P.impls k (record (P.impls k) { owners = (P.impls k).owners - 1 });
          })
          (record { sound = q.sound; calm = q.calm; freed = q.freed }) (last-Counted k last c))
  ]

  -- A variable takes the reference in hand.
  pub assign-Quiet :
      (i : ℕ) (x : Option ℕ) (P : Proc)
      → IsSettled P
      → Counts fl lib loader P x none
      → IsQuiet (assign fl lib loader i x P)
  unfolding assign
  assign-Quiet i x P q c =
      release-Quiet (P.embedders i) (record P { embedders = write P.embedders i x })
        (record { sound = q.sound; calm = q.calm; freed = q.freed }) (swap-Counted i c)

  -- A reference more to a variable's `Impl`, in hand.
  pub retain-Counts :
      (i : ℕ) (owner : Option ℕ) (P : Proc)
      → P.embedders i ≡ owner
      → Counts fl lib loader P none none
      → Counts fl lib loader (retain fl lib loader owner P) owner none
  unfolding retain
  retain-Counts i none P e c = c
  retain-Counts i (some k) P e c = retain-Counted k (variable_owned i k c e) c

  pub retain-Settled :
      (owner : Option ℕ) (P : Proc) → IsSettled P → IsSettled (retain fl lib loader owner P)
  unfolding retain
  retain-Settled none P q = q
  retain-Settled (some k) P q = record { sound = q.sound; calm = q.calm; freed = q.freed }

  -- What `release` leaves as it is.
  pub record Kept (P R : Proc) : Type 0 where
    pub same_host : R.host ≡ P.host
    pub same_store : R.world.store ≡ P.world.store
    pub same_embedders : R.embedders ≡ P.embedders
    pub same_sessions : (p : ℕ) → 0 < handles_of R.world.flights p → R.sessions p ≡ P.sessions p
    pub same_session : (k : ℕ) → (R.impls k).session ≡ (P.impls k).session

  write_session :
      (impls : Memory Impl) (k j owners : ℕ)
      → (write impls k (record (impls k) { owners = owners }) j).session ≡ (impls j).session
  write_session impls k j owners = elim (Bool-cases (k == j)) [
    | inl same ↦
        let e : k ≡ j = (==_iff k j).0 same in
        subst
          (λ x.
            (write impls k (record (impls k) { owners = owners }) x).session ≡ (impls x).session)
          e
          (ap (λ (x : Impl). x.session) (write_hit impls k (record (impls k) { owners = owners })))
    | inr other ↦
        ap (λ (x : Impl). x.session)
          (write_miss impls k j (record (impls k) { owners = owners }) (different k j other))
  ]

  pub release-Kept : (owner : Option ℕ) (P : Proc) → Kept P (release fl lib loader owner P)
  unfolding release drop_session
  release-Kept none P = record {
    same_host = refl;
    same_store = refl;
    same_embedders = refl;
    same_sessions = λ p _. refl;
    same_session = λ k. refl;
  }
  release-Kept (some k) P = elim (Bool-cases ((P.impls k).owners == 1)) [
    | inr others ↦ rw others (record {
      same_host = refl;
      same_store = refl;
      same_embedders = refl;
      same_sessions = λ p _. refl;
      same_session = λ j. write_session P.impls k j _;
    })
    | inl last ↦
        let R = record P {
          impls = write P.impls k (record (P.impls k) { owners = (P.impls k).owners - 1 });
        } in
        rw last (record {
          same_host = refl;
          same_store = dropped_store P.world (P.impls k).session;
          same_embedders = refl;
          same_sessions = λ p.
              at_or_else
                (λ x.
                  0 < handles_of (drop_session fl lib loader (P.impls k).session R).world.flights x
                  → (drop_session fl lib loader (P.impls k).session R).sessions x ≡ P.sessions x)
                (P.impls k).session (drop_live fl lib loader (P.impls k).session R)
                (λ x ne _. drop_other fl lib loader (P.impls k).session x R ne) p;
          same_session = λ j. write_session P.impls k j _;
        })
  ]

  -- The variable has the reference that it took.
  assigned : (i : ℕ) (x : Option ℕ) (P : Proc) → (assign fl lib loader i x P).embedders i ≡ x
  unfolding assign
  assigned i x P =
      let R = record P { embedders = write P.embedders i x } in
      ap (λ (m : Memory (Option ℕ)). m i) (release-Kept (P.embedders i) R).same_embedders
      ∙ write_hit P.embedders i x

  assigned_impl :
      (i j : ℕ) (x : Option ℕ) (P : Proc)
      → ((assign fl lib loader i x P).impls j).session ≡ (P.impls j).session
  unfolding assign
  assigned_impl i j x P =
      (release-Kept (P.embedders i) (record P { embedders = write P.embedders i x })).same_session j

  -- The session of the reference that a variable took has a handle.
  pub assigned_held :
      (i k : ℕ) (P : Proc)
      → IsQuiet (assign fl lib loader i (some k) P)
      → 0 < handles_of (assign fl lib loader i (some k) P).world.flights (P.impls k).session
  assigned_held i k P q =
      let R = assign fl lib loader i (some k) P in
      subst (λ p. 0 < handles_of R.world.flights p) (assigned_impl i k (some k) P)
        (owned_held k q.counted (variable_owned i k q.counted (assigned i (some k) P)))

  -- A session that still has a handle is kept.
  pub assign_kept :
      (i k : ℕ) (P : Proc) (p : ℕ)
      → 0 < handles_of (assign fl lib loader i (some k) P).world.flights p
      → (assign fl lib loader i (some k) P).sessions p ≡ P.sessions p
  unfolding assign
  assign_kept i k P p held =
      let kept =
        release-Kept (P.embedders i) (record P { embedders = write P.embedders i (some k) }) in
      kept.same_sessions p held

  -- The embedder has the session of the `Impl` that it was given.
  pub assign_session :
      (i k : ℕ) (P : Proc)
      → IsQuiet (assign fl lib loader i (some k) P)
      → (embedder fl lib loader (assign fl lib loader i (some k) P) i).session
        ≡ P.sessions (P.impls k).session
  unfolding embedder assign
  assign_session i k P q =
      let kept =
        release-Kept (P.embedders i) (record P { embedders = write P.embedders i (some k) }) in
      rw (embedder, assigned i (some k) P)
        (ap (assign fl lib loader i (some k) P).sessions (assigned_impl i k (some k) P)
          ∙ kept.same_sessions (P.impls k).session (assigned_held i k P q))

  pub assign_free :
      (i : ℕ) (x : Option ℕ) (P : Proc)
      → P.embedders i ≡ none
      → assign fl lib loader i x P ≡ record P { embedders = write P.embedders i x }
  unfolding assign release
  assign_free i x P free = rw (assign, free)
