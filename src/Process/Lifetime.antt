-- ===== src/Process/Lifetime.antt =====
-- include/cyborgdb_embed/embed.hpp, the life of a session: it is in memory exactly as long as some
-- `Embedder` holds it.
use cyborgdb_embed.Prelude.{
  ℕ, ◌<◌, ◌≡◌, sym, subst, ◌∙◌, ◌↔◌, inl, inr, List, some, ltb, Bool-cases, Option-cases, arith,
}
use cyborgdb_embed.Float.{Float}
use cyborgdb_embed.Resolve.Download.{Machine}
use cyborgdb_embed.Session.Loader.{Loader}
use cyborgdb_embed.Tokenizer.Shim.{Library}
use cyborgdb_embed.Session.{Session}
use cyborgdb_embed.Store.World.{Flight, made}
use cyborgdb_embed.Store.Changes.{none-some}
use cyborgdb_embed.Store.Sessions.{is_made}
use cyborgdb_embed.Process.{Process}
use cyborgdb_embed.Process.Api.{Request, Answer, serve, first_process}
use cyborgdb_embed.Process.Counts.{handles_of, handles_found, handles_gone}
use cyborgdb_embed.Process.Counts.Links.{variable_owned, owned_held, owned_variable, held_owned}
use cyborgdb_embed.Process.Quiet.{Fits, Quiet}
use cyborgdb_embed.Process.Serve.{reached-Quiet}

module _ (fl : Float) (lib : Library) (loader : Loader fl lib) where
  open fl use {F}

  abbrev Proc : Type 0
  Proc = Process fl lib loader

  -- A session with a handle: the load that made it, and the session as it is in memory.
  pub record InMemory (P : Proc) (p : ℕ) : Type 0 where
    pub flight : Flight
    pub here : P.world.flights p ≡ some flight
    pub is : flight.stage ≡ made
    pub held : 0 < flight.handles
    pub object : Session fl lib
    pub there : P.sessions p ≡ some object
    pub fits : Fits fl lib flight.key object

  module _ (P : Proc) (q : Quiet fl lib loader P) where
    pub in_memory : (p : ℕ) → 0 < handles_of P.world.flights p → InMemory P p
    in_memory p pos = elim (Option-cases (P.world.flights p)) [
      | inl gone ↦ let z = handles_gone P.world.flights p gone in absurd (omega arith)
      | inr (f, here) ↦
          let count = handles_found P.world.flights p f here in
          let calm = q.settled.calm p f here in
          let is = is_made P.world q.settled.sound.0 p f here calm.idle (omega arith) in
          let (s, there, fits) = calm.kept is (omega arith) in
          record {
            flight = f;
            here = here;
            is = is;
            held = omega arith;
            object = s;
            there = there;
            fits = fits;
          }
    ]

    object_held :
        (p : ℕ) (s : Session fl lib) → P.sessions p ≡ some s → 0 < handles_of P.world.flights p
    object_held p s there = elim (Bool-cases (ltb 0 (handles_of P.world.flights p))) [
      | inl held ↦ ground arith
      | inr nobody ↦ absurd (none-some (sym (q.settled.freed p (ground arith)) ∙ there))
    ]

  module _ (machine : Machine) (requests : List (Request F)) (answers : List (Answer F)) (P : Proc)
      (reached : serve fl lib loader requests (first_process fl lib loader machine)
        ≡ some (answers, P)) where
    -- In any process that a program reaches, whatever it opened, copied, moved and destroyed, a session
    -- is in memory exactly if one of the program's embedders refers to it through its `impl_`: no
    -- embedder is left with a session that was freed, and a session ends with its last embedder.
    pub session_lifetime :
        (p : ℕ)
        → ((s : Session fl lib) × (P.sessions p ≡ some s))
          ↔ ((i : ℕ) × (k : ℕ) × (P.embedders i ≡ some k) × ((P.impls k).session ≡ p))
    session_lifetime p =
        let q = reached-Quiet fl lib loader machine requests answers P reached in
        (
          λ (s, there).
              let (k, owned, same) = held_owned p q.counted (object_held P q p s there) in
              let (i, here) = owned_variable k q.counted owned in (i, k, here, same),
          λ (i, k, here, same).
              let held = owned_held k q.counted (variable_owned i k q.counted here) in
              let m = in_memory P q p (subst (λ x. 0 < handles_of P.world.flights x) same held) in
              (m.object, m.there),
        )
