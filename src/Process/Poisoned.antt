-- ===== src/Process/Poisoned.antt =====
-- src/embed.cpp after a load that threw: every call of the interface keeps what src/session_store.cpp keeps of
-- it.
use cyborgdb_embed.Prelude.{
  Memory, ℕ, ◌≡◌, refl, sym, ap, subst, ◌∙◌, inl, inr, List, [], ◌∷◌, Option, none, some,
  Bool-cases, Option-cases, ◌==◌, write,
}
use cyborgdb_embed.Status.{Status, Ending, ends, throws}
use cyborgdb_embed.Float.{Float}
use cyborgdb_embed.Registry.{ModelId, RegistryEntry}
use cyborgdb_embed.Registry.Lookup.Entries.{find_every}
use cyborgdb_embed.Registry.Table.{all_mini_lm_l6_v2_entry}
use cyborgdb_embed.Session.Loader.{Loader}
use cyborgdb_embed.Session.{Session}
use cyborgdb_embed.Session.Load.{Host}
use cyborgdb_embed.Tokenizer.Shim.{Library}
use cyborgdb_embed.Store.{Key, Store, Decision, reuse, wait, load}
use cyborgdb_embed.Store.World.{
  World, Event, called, configured, finished, published, woken, dropped, threw, Reply, nothing,
  raised, session, error, decided, step,
}
use cyborgdb_embed.Store.Changes.{WorldInv, none-some, some_injective}
use cyborgdb_embed.Store.Reachable.{step-Inv}
use cyborgdb_embed.Store.Poisoned.{IsPoisoned, step-IsPoisoned}
use cyborgdb_embed.Process.{
  Options, key_of, Process, answer, finish_load, continue, acquire, drop_session, release, assign,
  retain, copy, move, destroy, finish_open, open_model,
}
use cyborgdb_embed.Process.Api.{
  Request, opens, copies, moves, destroys, asks_valid, asks_dimension, asks_identity,
  embeds_documents, embeds_queries, configures_runtime, configures_cache, asks_loaded_models,
  asks_load_stats, asks_runtime_version, Answer, ended_as, wrote_as, handle, serve,
}

-- The key's entry waits for a load that has thrown, in a store that is sound.
abbrev pub Poisonous : Key → ℕ → World → Type 0
Poisonous k q w = WorldInv w × IsPoisoned k q w

pub step-Poisonous :
    (k : Key) (q : ℕ) (w : World) (event : Event) → Poisonous k q w → Poisonous k q (step w event).0
step-Poisonous k q w event (v, d) = (step-Inv w v event, step-IsPoisoned k q w d v event)

module _ (fl : Float) (lib : Library) (loader : Loader fl lib) (k : Key) (q : ℕ) where
  open fl use {F}

  abbrev Proc : Type 0
  Proc = Process fl lib loader

  abbrev IsBad : Proc → Type 0
  IsBad P = Poisonous k q P.world

  -- An answer is of the process it is given.
  answer-IsBad :
      (P : Proc) (reply : Reply) (r : Ending × Option ℕ × Proc)
      → answer fl lib loader P reply ≡ some r
      → IsBad P
      → IsBad r.2
  unfolding answer
  answer-IsBad P nothing r e bad = absurd (none-some e)
  answer-IsBad P raised r e bad =
      subst (λ (x : Ending × Option ℕ × Proc). IsBad x.2) (some_injective e) bad
  answer-IsBad P (session p) r e bad =
      subst (λ (x : Ending × Option ℕ × Proc). IsBad x.2) (some_injective e) bad
  answer-IsBad P (error s) r e bad =
      subst (λ (x : Ending × Option ℕ × Proc). IsBad x.2) (some_injective e) bad

  finish-IsBad :
      (P : Proc) (p : ℕ) (loaded : Option (Ending × Host × Option (Session fl lib)))
      (r : Ending × Option ℕ × Proc)
      → finish_load fl lib loader P p loaded ≡ some r
      → IsBad P
      → IsBad r.2
  unfolding finish_load
  finish-IsBad P p none r e bad = absurd (none-some e)
  finish-IsBad P p (some (throws, host, loaded)) r e bad =
      answer-IsBad _ _ r e (step-Poisonous k q P.world (finished p threw) bad)
  finish-IsBad P p (some (ends status, host, loaded)) r e bad =
      answer-IsBad _ _ r e
        (step-Poisonous k q _ (published p) (step-Poisonous k q P.world (finished p _) bad))

  continue-IsBad :
      (entry : RegistryEntry) (options : Options) (P : Proc) (d : Store × Decision)
      (r : Ending × Option ℕ × Proc)
      → continue fl lib loader entry options P d ≡ some r
      → Poisonous k q (decided P.world (key_of entry options) d).0
      → IsBad r.2
  unfolding continue
  continue-IsBad entry options P (store, reuse p) r e bad = answer-IsBad _ _ r e bad
  continue-IsBad entry options P (store, wait p) r e bad =
      answer-IsBad _ _ r e (step-Poisonous k q _ (woken p) bad)
  continue-IsBad entry options P (store, load config) r e bad =
      finish-IsBad
        (record P { world = (decided P.world (key_of entry options) (store, load config)).0 })
        P.world.next _ r e bad

  acquire-IsBad :
      (entry : RegistryEntry) (options : Options) (P : Proc) (r : Ending × Option ℕ × Proc)
      → acquire fl lib loader entry options P ≡ some r
      → IsBad P
      → IsBad r.2
  unfolding acquire step
  acquire-IsBad entry options P r e bad =
      continue-IsBad entry options P _ r e
        (step-Poisonous k q P.world (called (key_of entry options)) bad)

  release-IsBad : (owner : Option ℕ) (P : Proc) → IsBad P → IsBad (release fl lib loader owner P)
  unfolding release drop_session
  release-IsBad none P bad = bad
  release-IsBad (some n) P bad = elim (Bool-cases ((P.impls n).owners == 1)) [
    | inr others ↦ rw others bad
    | inl last ↦ rw last (step-Poisonous k q P.world (dropped (P.impls n).session) bad)
  ]

  assign-IsBad :
      (i : ℕ) (impl : Option ℕ) (P : Proc) → IsBad P → IsBad (assign fl lib loader i impl P)
  unfolding assign
  assign-IsBad i impl P bad =
      release-IsBad (P.embedders i) (record P { embedders = write P.embedders i impl }) bad

  retain_world : (owner : Option ℕ) (P : Proc) → (retain fl lib loader owner P).world ≡ P.world
  unfolding retain
  retain_world none P = refl
  retain_world (some n) P = refl

  finish_open-IsBad :
      (i : ℕ) (a : Ending × Option ℕ × Proc) (r : Ending × Proc)
      → finish_open fl lib loader i (some a) ≡ some r
      → IsBad a.2
      → IsBad r.1
  unfolding finish_open assign
  finish_open-IsBad i (ending, none, P) r e bad =
      subst (λ (x : Ending × Proc). IsBad x.1) (some_injective e) bad
  finish_open-IsBad i (ending, some p, P) r e bad =
      subst (λ (x : Ending × Proc). IsBad x.1) (some_injective e)
        (release-IsBad (P.embedders i) _ bad)

  open-IsBad :
      (id : ModelId) (options : Options) (i : ℕ) (P : Proc) (r : Ending × Proc)
      → open_model fl lib loader id options i P ≡ some r
      → IsBad P
      → IsBad r.1
  unfolding open_model finish_open
  open-IsBad id options i P r e bad =
      let (entry, found, _, _, _, _, _) =
        find_every id all_mini_lm_l6_v2_entry all_mini_lm_l6_v2_entry.info in
      let e' : finish_open fl lib loader i (acquire fl lib loader entry options P) ≡ some r =
        rw (open_model, found) at e in
      elim (Option-cases (acquire fl lib loader entry options P)) [
        | inl gone ↦ absurd (none-some (sym (ap (finish_open fl lib loader i) gone) ∙ e'))
        | inr (a, made) ↦
            finish_open-IsBad i a r (sym (ap (finish_open fl lib loader i) made) ∙ e')
              (acquire-IsBad entry options P a made bad)
      ]

  ended-IsBad :
      (o : Option (Ending × Proc)) (a : Answer F × Proc)
      → ended_as fl lib loader o ≡ some a
      → ((r : Ending × Proc) → o ≡ some r → IsBad r.1)
      → IsBad a.1
  unfolding ended_as
  ended-IsBad none a e bad = absurd (none-some e)
  ended-IsBad (some (ends status, P)) a e bad =
      subst (λ (x : Answer F × Proc). IsBad x.1) (some_injective e) (bad (ends status, P) refl)
  ended-IsBad (some (throws, P)) a e bad =
      subst (λ (x : Answer F × Proc). IsBad x.1) (some_injective e) (bad (throws, P) refl)

  wrote-IsBad :
      (P : Proc) (o : Option (Status × Memory F)) (a : Answer F × Proc)
      → wrote_as fl lib loader P o ≡ some a
      → IsBad P
      → IsBad a.1
  unfolding wrote_as
  wrote-IsBad P none a e bad = absurd (none-some e)
  wrote-IsBad P (some r) a e bad = subst (λ (x : Answer F × Proc). IsBad x.1) (some_injective e) bad

  -- A call that does no more than it says.
  same-IsBad : (a b : Answer F × Proc) → some a ≡ some b → IsBad a.1 → IsBad b.1
  same-IsBad a b e bad = subst (λ (x : Answer F × Proc). IsBad x.1) (some_injective e) bad

  handle-IsBad :
      (request : Request F) (P : Proc) (a : Answer F × Proc)
      → handle fl lib loader request P ≡ some a
      → IsBad P
      → IsBad a.1
  unfolding handle copy move destroy
  handle-IsBad (opens id options i) P a e bad =
      ended-IsBad _ a e (λ r made. open-IsBad id options i P r made bad)
  handle-IsBad (copies i j) P a e bad = same-IsBad _ a e (
      assign-IsBad i (P.embedders j) (retain fl lib loader (P.embedders j) P)
        (subst (Poisonous k q) (sym (retain_world (P.embedders j) P)) bad))
  handle-IsBad (moves i j) P a e bad =
      same-IsBad _ a e
        (assign-IsBad i (P.embedders j) (record P { embedders = write P.embedders j none }) bad)
  handle-IsBad (destroys i) P a e bad = same-IsBad _ a e (assign-IsBad i none P bad)
  handle-IsBad (asks_valid i) P a e bad = same-IsBad _ a e bad
  handle-IsBad (asks_dimension i) P a e bad = same-IsBad _ a e bad
  handle-IsBad (asks_identity i) P a e bad = same-IsBad _ a e bad
  handle-IsBad (embeds_documents i texts n out room) P a e bad = wrote-IsBad P _ a e bad
  handle-IsBad (embeds_queries i texts n out room) P a e bad = wrote-IsBad P _ a e bad
  handle-IsBad (configures_runtime config) P a e bad = same-IsBad _ a e bad
  handle-IsBad (configures_cache config) P a e bad =
      same-IsBad _ a e (step-Poisonous k q P.world (configured config) bad)
  handle-IsBad asks_loaded_models P a e bad = same-IsBad _ a e bad
  handle-IsBad asks_load_stats P a e bad = same-IsBad _ a e bad
  handle-IsBad asks_runtime_version P a e bad = same-IsBad _ a e bad

  pub serve-IsBad :
      (requests : List (Request F)) (P : Proc) (r : List (Answer F) × Proc)
      → serve fl lib loader requests P ≡ some r
      → IsBad P
      → IsBad r.1
  unfolding serve
  serve-IsBad [] P r e bad =
      subst (λ (x : List (Answer F) × Proc). IsBad x.1) (some_injective e) bad
  serve-IsBad (request ∷ requests) P r e bad =
      elim (Option-cases (handle fl lib loader request P)) [
        | inl gone ↦ absurd (none-some (rw (serve, gone) at e))
        | inr ((answer, next), made) ↦
            let bad' = handle-IsBad request P (answer, next) made bad in
            elim (Option-cases (serve fl lib loader requests next)) [
              | inl gone ↦ absurd (none-some (rw (serve, made, gone) at e))
              | inr ((answers, last), rest) ↦
                  subst (λ (x : List (Answer F) × Proc). IsBad x.1)
                    (some_injective (rw (serve, made, rest) at e))
                    (serve-IsBad requests next (answers, last) rest bad')
            ]
      ]
