-- ===== src/Session/Runtime.antt =====
-- src/session_ort.cpp: `Runtime`, `environment` and `configure_runtime`.
use cyborgdb_embed.Prelude.{
  ℤ, pos, negsuc, ℕ, ◌≡◌, refl, sym, ap, ◌∙◌, ◌⊎◌, inl, inr, Bool, true, false, not, ◌&&◌, List, [],
  ◌∷◌, ◌++◌, Option, none, some, ltb, ◌==◌, ==_iff, if◌then◌else◌, Bool-cases, Option-cases, Text,
  codes, decimal,
}
use cyborgdb_embed.Onnx.{LoggingLevel, warning}
use cyborgdb_embed.Status.{Status, success, invalid_argument}

pub record RuntimeConfig : Type 0 where
  pub threads : ℤ

abbrev pub default_runtime_config : RuntimeConfig
default_runtime_config = record { threads = pos 1 }

-- `Ort::ThreadingOptions`, as `environment` fills it.
pub record ThreadingOptions : Type 0 where
  pub intra_op_threads : ℕ
  pub inter_op_threads : ℕ
  pub spin_control : ℕ

abbrev pub threading : ℕ → ThreadingOptions
threading threads = record { intra_op_threads = threads; inter_op_threads = 1; spin_control = 0 }

-- `Ort::Env` of options, a level and a name: what it throws, or `none`.
abbrev pub MakeEnv : Type 0
MakeEnv = ThreadingOptions → LoggingLevel → Text → Option Text

-- `pool` is what the static environment was made with.
pub record Runtime : Type 0 where
  pub started : Bool
  pub threads : ℕ
  pub pool : Option ThreadingOptions

abbrev pub first_runtime : Runtime
first_runtime = record { started = false; threads = 1; pool = none }

-- `environment`: what it throws, or `none`.
unfoldable pub environment : MakeEnv → Runtime → Option Text × Runtime
environment make state = elim state.pool [
  | some options ↦ (none, record state { started = true })
  | none ↦ elim (make (threading state.threads) warning (codes "cyborgdb-embed")) [
    | some what ↦ (some what, state)
    | none ↦ (none, record state { started = true; pool = some (threading state.threads) })
  ]
]

abbrev pub too_few : Status
too_few = record { code = invalid_argument; message = codes "threads must be at least 1" }

unfoldable pub configure_runtime : ℤ → Runtime → Status × Runtime
configure_runtime (negsuc n) state = (too_few, state)
configure_runtime (pos threads) state =
    if ltb threads 1
    then (too_few, state)
    else if state.started && not (threads == state.threads)
    then (
      record {
        code = invalid_argument;
        message =
            codes "the thread pool already started with "
            ++ (decimal state.threads
                ++ codes " threads; configure the runtime before the first open");
      },
      state,
    )
    else (success, record state { threads = threads })

pub data Use : Type 0 where
  configures : ℤ → Use
  opens : MakeEnv → Use

unfoldable pub after : Use → Runtime → Runtime
unfolding environment configure_runtime
after (configures threads) state = (configure_runtime threads state).1
after (opens make) state = (environment make state).1

unfoldable pub after_all : List Use → Runtime → Runtime
unfolding after
after_all [] state = state
after_all (u ∷ us) state = after_all us (after u state)

abbrev IsFrozen : ℕ → Runtime → Type 0
IsFrozen n state = (state.started ≡ true) × (state.threads ≡ n) × (state.pool ≡ some (threading n))

configure-IsFrozen :
    (threads n : ℕ) (state : Runtime)
    → IsFrozen n state
    → IsFrozen n (configure_runtime (pos threads) state).1
unfolding configure_runtime
configure-IsFrozen threads n state (on, same, made) = elim (Bool-cases (ltb threads 1)) [
  | inl few ↦ rw few (on, same, made)
  | inr some_threads ↦ elim (Bool-cases (threads == state.threads)) [
    | inl equal ↦
        rw (some_threads, on, equal) (refl, (==_iff threads state.threads).0 equal ∙ same, made)
    | inr other ↦ rw (some_threads, on, other) (refl, same, made)
  ]
]

environment-IsFrozen :
    (make : MakeEnv) (n : ℕ) (state : Runtime)
    → IsFrozen n state
    → IsFrozen n (environment make state).1
unfolding environment
environment-IsFrozen make n state (on, same, made) = rw (environment, made) (refl, same, made)

after-IsFrozen : (u : Use) (n : ℕ) (state : Runtime) → IsFrozen n state → IsFrozen n (after u state)
unfolding after
after-IsFrozen (configures (pos threads)) n state frozen = configure-IsFrozen threads n state frozen
after-IsFrozen (configures (negsuc k)) n state frozen = unfold configure_runtime in frozen
after-IsFrozen (opens b) n state frozen = environment-IsFrozen b n state frozen

all-IsFrozen :
    (us : List Use) (n : ℕ) (state : Runtime) → IsFrozen n state → IsFrozen n (after_all us state)
unfolding after_all
all-IsFrozen [] n state frozen = frozen
all-IsFrozen (u ∷ us) n state frozen =
    all-IsFrozen us n (after u state) (after-IsFrozen u n state frozen)

-- No pool yet, or the pool that the configuration names.
abbrev IsSound : Runtime → Type 0
IsSound state = (state.started ≡ false) × (state.pool ≡ none) ⊎ IsFrozen state.threads state

own-IsFrozen : (n : ℕ) (state : Runtime) → IsFrozen n state → IsFrozen state.threads state
own-IsFrozen n state (on, same, made) = (on, refl, made ∙ ap (λ k. some (threading k)) (sym same))

configure-IsSound :
    (threads : ℕ) (state : Runtime)
    → state.started ≡ false
    → state.pool ≡ none
    → IsSound (configure_runtime (pos threads) state).1
unfolding configure_runtime
configure-IsSound threads state off nothing = elim (Bool-cases (ltb threads 1)) [
  | inl few ↦ rw few (inl (off, nothing))
  | inr some_threads ↦ rw (some_threads, off) (inl (refl, nothing))
]

environment-IsSound :
    (make : MakeEnv) (state : Runtime)
    → state.started ≡ false
    → state.pool ≡ none
    → IsSound (environment make state).1
unfolding environment
environment-IsSound make state off nothing =
    elim (Option-cases (make (threading state.threads) warning (codes "cyborgdb-embed"))) [
      | inl fine ↦ rw (environment, nothing, fine) (inr (refl, refl, refl))
      | inr (what, thrown) ↦ rw (environment, nothing, thrown) (inl (off, nothing))
    ]

after-IsSound : (u : Use) (state : Runtime) → IsSound state → IsSound (after u state)
unfolding after
after-IsSound u state (inr frozen) =
    inr (own-IsFrozen state.threads (after u state) (after-IsFrozen u state.threads state frozen))
after-IsSound (configures (pos threads)) state (inl (off, nothing)) =
    configure-IsSound threads state off nothing
after-IsSound (configures (negsuc n)) state (inl (off, nothing)) =
    unfold configure_runtime in inl (off, nothing)
after-IsSound (opens b) state (inl (off, nothing)) = environment-IsSound b state off nothing

all-IsSound : (us : List Use) (state : Runtime) → IsSound state → IsSound (after_all us state)
unfolding after_all
all-IsSound [] state sound = sound
all-IsSound (u ∷ us) state sound = all-IsSound us (after u state) (after-IsSound u state sound)

on_off : {b : Bool} → b ≡ true → b ≡ false → ⊥
on_off p q = cc

-- Once a first session has started the pool, after any configurations and opens of sessions: the pool
-- has the number of threads that was configured then (and one inter-op thread, with spinning off),
-- and no later configuration or open changes the pool, the number on record or that it has started.
pub pool_frozen :
    (before later : List Use)
    → (after_all before first_runtime).started ≡ true
    → ((after_all before first_runtime).pool
        ≡ some (threading (after_all before first_runtime).threads))
      × (after_all later (after_all before first_runtime) ≡ after_all before first_runtime)
pool_frozen before later on = elim (all-IsSound before first_runtime (inl (refl, refl))) [
  | inl (off, nothing) ↦ absurd (on_off on off)
  | inr (started, same, made) ↦
      let (started', same', made') =
        all-IsFrozen later (after_all before first_runtime).threads (after_all before first_runtime)
          (started, same, made) in
      (
        made,
        λ i. record {
          started = (started' ∙ sym started) i;
          threads = same' i;
          pool = (made' ∙ sym made) i;
        },
      )
]
