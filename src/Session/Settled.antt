-- ===== src/Session/Settled.antt =====
-- src/session.cpp, `load_session`: that it ends, and how.
use cyborgdb_embed.Prelude.{
  ℕ, [], false, refl, ◌≡◌, inl, inr, ◌⊎◌, ◌||◌, Option, none, some, Bool-cases, Option-cases, Text,
}
use cyborgdb_embed.Status.{Status, is_ok, Ending, ends, throws}
use cyborgdb_embed.Float.{Float}
use cyborgdb_embed.Config.{CacheConfig}
use cyborgdb_embed.Registry.{
  Provider, Precision, RegistryEntry, provider_available, precision_available,
}
use cyborgdb_embed.Registry.Lookup.{is_empty}
use cyborgdb_embed.Resolve.Download.{Disk, Machine}
use cyborgdb_embed.Resolve.Resolver.{Resolver}
use cyborgdb_embed.Onnx.{init_ort}
use cyborgdb_embed.Tokenizer.Shim.{Library, tokenizer_new}
use cyborgdb_embed.Tokenizer.{Tokenizer, load}
use cyborgdb_embed.Session.Runtime.{Runtime as PoolState, environment}
use cyborgdb_embed.Session.{
  Graph, choose_output, OnnxRuntime, session_options, Session, graph_session, start_session,
  tokenized_session, make_ort_session,
}
use cyborgdb_embed.Session.Load.{
  Host, no_precision, Answers, Loaded, load_model, load_graph, load_session,
}

some-none : {A : Type 0} {a : A} → ◌≡◌ {A = Option A} (some a) none → ⊥
some-none e = cc

module _ (fl : Float) (lib : Library) (res : Resolver) (ort : OnnxRuntime fl.F) where
  unfoldable pub IsSettled : RegistryEntry → Provider → Precision → Loaded fl lib res ort → Type 0
  unfolding Answers
  IsSettled entry provider precision none = ⊥
  IsSettled entry provider precision (some (ending, host, session)) =
      Answers fl lib entry provider precision ending session

  unloaded :
      (disk : Disk) (path : Text) (max_tokens : ℕ)
      → (load lib disk path max_tokens).1 ≡ none
      → is_ok (load lib disk path max_tokens).0 ≡ false
  unfolding load
  unloaded disk path max_tokens = elim (Option-cases (disk path)) [
    | inl unread ↦ rw (load, unread) (λ _. refl)
    | inr (json, found) ↦ elim (Option-cases (tokenizer_new lib (some json) max_tokens)) [
      | inl invalid ↦ rw (load, found, invalid) (λ _. refl)
      | inr (handle, valid) ↦ rw (load, found, valid) (λ e. absurd (some-none e))
    ]
  ]

  module _ (entry : RegistryEntry) (provider : Provider) (precision : Precision) where
    graph-Answers :
        (tokenizer : Tokenizer lib) (g : Text ⊎ Graph fl.F)
        → Answers fl lib entry provider precision
            (ends (graph_session fl lib entry provider precision tokenizer g).0)
            (graph_session fl lib entry provider precision tokenizer g).1
    unfolding Answers graph_session
    graph-Answers tokenizer (inl what) = refl
    graph-Answers tokenizer (inr g) = elim (Bool-cases (is_empty (choose_output [] g.outputs))) [
      | inl nothing ↦ rw nothing refl
      | inr found ↦ rw found (refl, refl, refl, refl)
    ]

    start-Answers :
        (graph : Text) (tokenizer : Tokenizer lib) (thrown : Option Text) (state : PoolState)
        → Answers fl lib entry provider precision
            (ends
              (start_session fl lib ort entry provider precision graph tokenizer (thrown, state)).0)
            (start_session fl lib ort entry provider precision graph tokenizer (thrown, state)).1
    unfolding Answers start_session
    start-Answers graph tokenizer (some what) state = refl
    start-Answers graph tokenizer none state =
        graph-Answers tokenizer (ort.open_graph session_options graph)

    tokenized-Answers :
        (graph : Text) (state : PoolState) (r : Status × Option (Tokenizer lib))
        → (r.1 ≡ none → is_ok r.0 ≡ false)
        → Answers fl lib entry provider precision
            (ends (tokenized_session fl lib ort entry provider precision graph state r).0)
            (tokenized_session fl lib ort entry provider precision graph state r).1
    unfolding Answers tokenized_session
    tokenized-Answers graph state (status, none) bad = bad refl
    tokenized-Answers graph state (status, some tokenizer) bad =
        start-Answers graph tokenizer (environment ort.make_env state).0
          (environment ort.make_env state).1

    make-Answers :
        (graph path : Text) (disk : Disk) (state : PoolState)
        → Answers fl lib entry provider precision
            (ends (make_ort_session fl lib ort entry provider precision graph path disk state).0)
            (make_ort_session fl lib ort entry provider precision graph path disk state).1
    unfolding make_ort_session
    make-Answers graph path disk state =
        tokenized-Answers graph state (load lib disk path entry.info.max_seq_length)
          (unloaded disk path entry.info.max_seq_length)

    model-IsSettled :
        (graph : Text) (host : Host) (path : Text) (ending : Ending) (m : Machine)
        → IsSettled entry provider precision
            (load_model fl lib res ort entry provider precision graph host path (some (ending, m)))
    unfolding IsSettled Answers load_model
    model-IsSettled graph host path throws m = refl
    model-IsSettled graph host path (ends status) m = elim (Bool-cases (is_ok status)) [
      | inr bad ↦ rw bad bad
      | inl good ↦ elim (Bool-cases (is_ok (init_ort ort.base host.api).0)) [
        | inr bad ↦ rw (good, bad) bad
        | inl ready ↦ rw (good, ready) (make-Answers graph path m.disk host.runtime)
      ]
    ]

    graph-IsSettled :
        (config : CacheConfig) (host : Host) (graph : Text) (ending : Ending) (m : Machine)
        → IsSettled entry provider precision (
            load_graph fl lib res ort entry provider precision config host graph (some (ending, m)))
    unfolding IsSettled Answers load_graph
    graph-IsSettled config host graph throws m = refl
    graph-IsSettled config host graph (ends status) m = elim (Bool-cases (is_ok status)) [
      | inr bad ↦ rw bad bad
      | inl good ↦
          let ((status', m'), found) = res.tokenizer_returns entry config m in
          rw (good, found)
            (model-IsSettled graph host (res.ensure_tokenizer entry config m).0 status' m')
    ]

    session-IsSettled :
        (config : CacheConfig) (host : Host)
        → IsSettled entry provider precision
            (load_session fl lib res ort entry provider precision config host)
    unfolding IsSettled Answers load_session
    session-IsSettled config host =
        let ((status, m'), found) = res.graph_returns entry config host.machine in
        elim (Bool-cases (precision_available entry.info.id precision)) [
          | inr refused ↦ rw refused refl
          | inl precise ↦ elim (Bool-cases (provider_available provider)) [
            | inr refused ↦ rw (precise, refused) refl
            | inl provided ↦
                elim (Bool-cases (is_empty entry.info.revision || is_empty entry.onnx_sha256)) [
                  | inl empty ↦ rw (precise, provided, empty) refl
                  | inr pinned ↦
                      rw (precise, provided, pinned, found)
                        (graph-IsSettled config host (res.ensure_graph entry config host.machine).0
                          status m')
                ]
          ]
        ]

    -- A precision that the registry does not pin is refused before anything is read or changed.
    pub refused_precision :
        (config : CacheConfig) (host : Host)
        → precision_available entry.info.id precision ≡ false
        → load_session fl lib res ort entry provider precision config host
          ≡ some (ends no_precision, host, none)
    unfolding load_session
    refused_precision config host refused = rw (load_session, refused)

    settled :
        (loaded : Loaded fl lib res ort)
        → IsSettled entry provider precision loaded
        → (r : Ending × Host × Option (Session fl lib)) × (loaded ≡ some r)
          × Answers fl lib entry provider precision r.0 r.2
    unfolding IsSettled
    settled none impossible = absurd impossible
    settled (some r) answers = (r, refl, answers)

    -- `load_session` comes to an end, whatever the network, the file system and the libraries do: it
    -- returns success and gives a session of the entry, the provider and the precision that were asked
    -- for, or it gives no session, and returns another status or throws.
    pub load_session_total :
        (config : CacheConfig) (host : Host)
        → (r : Ending × Host × Option (Session fl lib)) × (load_session fl lib res ort entry
              provider precision config host
            ≡ some r)
          × Answers fl lib entry provider precision r.0 r.2
    load_session_total config host =
        settled (load_session fl lib res ort entry provider precision config host)
          (session-IsSettled config host)
