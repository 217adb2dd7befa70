-- ===== src/Process/Serve.antt =====
-- src/embed.cpp: what a program finds whose calls follow one another, from the start of the process.
use cyborgdb_embed.Prelude.{
  suc, ◌≡◌, refl, sym, ap, subst, ◌∙◌, false, List, [], ◌∷◌, Option, none, some, write,
}
use cyborgdb_embed.Status.{Status, Ending, ends, throws}
use cyborgdb_embed.Float.{Float}
use cyborgdb_embed.Resolve.Download.{Machine}
use cyborgdb_embed.Session.Loader.{Loader}
use cyborgdb_embed.Tokenizer.Shim.{Library}
use cyborgdb_embed.Store.{configure}
use cyborgdb_embed.Store.World.{configured, step}
use cyborgdb_embed.Store.Changes.{none-some, some_injective}
use cyborgdb_embed.Store.Reachable.{start-Inv}
use cyborgdb_embed.Store.Order.{is_increasing}
use cyborgdb_embed.Store.Ordered.{step-Sound}
use cyborgdb_embed.Embedder.Total.{documents_total, queries_total}
use cyborgdb_embed.Embedder.{embed_documents, embed_queries}
use cyborgdb_embed.Prelude.{length, Memory, total}
use cyborgdb_embed.Process.{Process, open_model, retain, copy, move, destroy, embedder}
use cyborgdb_embed.Process.Api.{
  Request, opens, copies, moves, destroys, asks_valid, asks_dimension, asks_identity,
  embeds_documents, embeds_queries, configures_runtime, configures_cache, asks_loaded_models,
  asks_load_stats, asks_runtime_version, Answer, ended, threw, wrote, ended_as, wrote_as, handle,
  serve, first_process,
}
use cyborgdb_embed.Process.Quiet.{Quiet}
use cyborgdb_embed.Process.Open.{open_lem}
use cyborgdb_embed.Process.Release.{assign-Quiet, retain-Counts, retain-Settled}
use cyborgdb_embed.Process.Counts.{names, handles_of}
use cyborgdb_embed.Process.Counts.Changes.{swap-Counted}

module _ (fl : Float) (lib : Library) (loader : Loader fl lib) where
  open fl use {F}

  abbrev Proc : Type 0
  Proc = Process fl lib loader

  abbrev IsQuiet : Proc → Type 0
  IsQuiet P = Quiet fl lib loader P

  ended-Quiet :
      (o : Option (Ending × Proc)) (r : Ending × Proc)
      → o ≡ some r
      → IsQuiet r.1
      → (a : Answer F × Proc) × (ended_as fl lib loader o ≡ some a) × IsQuiet a.1
  unfolding ended_as
  ended-Quiet o (ends s, P) e q = ((ended s, P), ap (ended_as fl lib loader) e, q)
  ended-Quiet o (throws, P) e q = ((threw, P), ap (ended_as fl lib loader) e, q)

  wrote-Quiet :
      (P : Proc) (o : Option (Status × Memory F)) (r : Status × Memory F)
      → o ≡ some r
      → IsQuiet P
      → (a : Answer F × Proc) × (wrote_as fl lib loader P o ≡ some a) × IsQuiet a.1
  unfolding wrote_as
  wrote-Quiet P o r e q = ((wrote r.0 r.1, P), ap (wrote_as fl lib loader P) e, q)

  handle-Quiet :
      (request : Request F) (P : Proc)
      → IsQuiet P
      → (a : Answer F × Proc) × (handle fl lib loader request P ≡ some a) × IsQuiet a.1
  unfolding handle copy move destroy step configure
  handle-Quiet (opens id options i) P q =
      let (r, e, opened) = open_lem fl lib loader P q id options i in
      ended-Quiet (open_model fl lib loader id options i P) r e opened.quiet
  handle-Quiet (copies i j) P q = (
    _,
    refl,
    assign-Quiet fl lib loader i (P.embedders j) (retain fl lib loader (P.embedders j) P)
        (retain-Settled fl lib loader (P.embedders j) P q.settled)
        (retain-Counts fl lib loader j (P.embedders j) P refl q.counted),
  )
  handle-Quiet (moves i j) P q = (
    _,
    refl,
    assign-Quiet fl lib loader i (P.embedders j) (record P { embedders = write P.embedders j none })
        (record { sound = q.settled.sound; calm = q.settled.calm; freed = q.settled.freed })
        (swap-Counted j q.counted),
  )
  handle-Quiet (destroys i) P q = (_, refl, assign-Quiet fl lib loader i none P q.settled q.counted)
  handle-Quiet (asks_valid i) P q = (_, refl, q)
  handle-Quiet (asks_dimension i) P q = (_, refl, q)
  handle-Quiet (asks_identity i) P q = (_, refl, q)
  handle-Quiet (embeds_documents i texts n out room) P q =
      let (r, e) = documents_total fl lib (embedder fl lib loader P i) texts n out room in
      wrote-Quiet P (embed_documents fl lib (embedder fl lib loader P i) texts n out room) r e q
  handle-Quiet (embeds_queries i texts n out room) P q =
      let (r, e) = queries_total fl lib (embedder fl lib loader P i) texts n out room in
      wrote-Quiet P (embed_queries fl lib (embedder fl lib loader P i) texts n out room) r e q
  handle-Quiet (configures_runtime threads) P q = (
    _,
    refl,
    record {
      settled = record { sound = q.settled.sound; calm = q.settled.calm; freed = q.settled.freed };
      counted = q.counted;
    },
  )
  handle-Quiet (configures_cache config) P q = (
    _,
    refl,
    record {
      settled = record {
        sound = step-Sound P.world q.settled.sound (configured config);
        calm = q.settled.calm;
        freed = q.settled.freed;
      };
      counted = q.counted;
    },
  )
  handle-Quiet asks_loaded_models P q = (_, refl, q)
  handle-Quiet asks_load_stats P q = (_, refl, q)
  handle-Quiet asks_runtime_version P q = (_, refl, q)

  pub serve-Quiet :
      (requests : List (Request F)) (P : Proc)
      → IsQuiet P
      → (r : List (Answer F) × Proc) × (serve fl lib loader requests P ≡ some r)
        × IsQuiet r.1
        × (length r.0 ≡ length requests)
  unfolding serve
  serve-Quiet [] P q = (([], P), refl, q, refl)
  serve-Quiet (request ∷ requests) P q =
      let ((answer, next), e, q') = handle-Quiet request P q in
      let ((answers, last), e', q'', same) = serve-Quiet requests next q' in
      ((answer ∷ answers, last), (rw (serve, e) (rw e' refl)), q'', ap (λ n. suc n) same)

  pub first-Quiet : (machine : Machine) → IsQuiet (first_process fl lib loader machine)
  unfolding total names handles_of is_increasing
  first-Quiet machine = record {
    settled = record {
      sound = (start-Inv (record { cache_dir = []; endpoint = []; offline = false }), refl);
      calm = λ p f here. absurd (none-some here);
      freed = λ p _. refl;
    };
    counted = record {
      variables = 0;
      unused = λ i _. refl;
      owned = λ k. refl;
      fresh = λ k _. refl;
      held = λ p. refl;
    };
  }

  -- A process that a program reaches.
  pub reached-Quiet :
      (machine : Machine) (requests : List (Request F)) (answers : List (Answer F)) (P : Proc)
      → serve fl lib loader requests (first_process fl lib loader machine) ≡ some (answers, P)
      → IsQuiet P
  reached-Quiet machine requests answers P reached =
      let (r, e, q, _) = serve-Quiet requests _ (first-Quiet machine) in
      subst (λ (x : List (Answer F) × Proc). IsQuiet x.1) (some_injective (sym e ∙ reached)) q

  -- Every call of the interface comes to an end, whatever the calls before it were, those that threw
  -- among them, and whatever the network, the file system and the libraries answer: each call returns
  -- or throws, so no `open` waits for ever on a load and no call of an embedder hangs, and there is
  -- one answer for each call.
  pub serve_total :
      (machine : Machine) (requests : List (Request F))
      → (r : List (Answer F) × Proc) × (serve fl lib loader requests
            (first_process fl lib loader machine)
          ≡ some r)
        × (length r.0 ≡ length requests)
  serve_total machine requests =
      let (r, e, _, same) = serve-Quiet requests _ (first-Quiet machine) in (r, e, same)
