-- ===== src/Store/World.antt =====
-- src/session_store.cpp with its callers: calls of `acquire` and handles on sessions, interleaved at
-- the two critical sections. A flight is one load: the promise, the call that loads, the calls that
-- wait on the promise, and the handles on the session that was made. An event that cannot happen
-- changes nothing.
use cyborgdb_embed.Prelude.{
  ℕ, suc, ◌+◌, ◌-◌, Bool, true, false, List, [], ◌∷◌, Option, none, some, ltb, if◌then◌else◌, codes,
  Memory, write,
}
use cyborgdb_embed.Status.{Status, model_load_failed}
use cyborgdb_embed.Config.{CacheConfig}
use cyborgdb_embed.Store.{
  Key, Store, Decision, reuse, wait, load, configure, begin_acquire, end_acquire,
}

-- `broken`: the load threw, and the promise was destroyed without a value.
pub data Stage : Type 0 where
  loading made broken : Stage
  failed : Status → Stage

pub record Flight : Type 0 where
  pub key : Key
  pub config : CacheConfig
  pub stage : Stage
  pub loader : Bool
  pub waiters : ℕ
  pub handles : ℕ

-- The references to a session: its handles; the loading call's, and that in the promise's state,
-- which lives as long as the loading call or one that waits.
abbrev pub state_count : Bool → ℕ → ℕ
state_count true waiters = 2
state_count false waiters = if ltb 0 waiters then 1 else 0

abbrev pub stage_count : Stage → Bool → ℕ → ℕ
stage_count made loader waiters = state_count loader waiters
stage_count _ loader waiters = 0

abbrev pub flight_count : Flight → ℕ
flight_count f = f.handles + stage_count f.stage f.loader f.waiters

abbrev pub Flights : Type 0
Flights = Memory (Option Flight)

abbrev pub use_count : Flights → ℕ → ℕ
use_count flights p = elim (flights p) [ none ↦ 0 | some f ↦ flight_count f ]

abbrev pub is_live : Flights → ℕ → Bool
is_live flights p = ltb 0 (use_count flights p)

pub record World : Type 0 where
  pub store : Store
  pub flights : Flights
  pub next : ℕ

pub data Outcome : Type 0 where
  built threw : Outcome
  refused : Status → Outcome

pub data Event : Type 0 where
  configured : CacheConfig → Event
  called : Key → Event
  finished : ℕ → Outcome → Event
  published woken dropped : ℕ → Event

-- What the event gives the caller.
pub data Reply : Type 0 where
  nothing raised : Reply
  session : ℕ → Reply
  error : Status → Reply

abbrev pub concurrent_failure : Status
concurrent_failure = record {
  code = model_load_failed;
  message = codes "a concurrent load of this model failed";
}

abbrev pub put : World → ℕ → Flight → World
put w p f = record w { flights = write w.flights p (some f) }

abbrev pub new_flight : Key → CacheConfig → Flight
new_flight key config = record {
  key = key;
  config = config;
  stage = loading;
  loader = true;
  waiters = 0;
  handles = 0;
}

-- A change to the flight `p`, if there is one.
abbrev pub at_flight : World → ℕ → (Flight → World × Reply) → World × Reply
at_flight w p change = elim (w.flights p) [ none ↦ (w, nothing) | some f ↦ change f ]

-- After the first critical section.
unfoldable pub decided : World → Key → Store × Decision → World × Reply
decided w key (store, reuse p) =
    at_flight (record w { store = store }) p
      (λ f. (put (record w { store = store }) p (record f { handles = f.handles + 1 }), session p))
decided w key (store, wait p) =
    at_flight (record w { store = store }) p
      (λ f. (put (record w { store = store }) p (record f { waiters = f.waiters + 1 }), nothing))
decided w key (store, load config) =
    (put (record w { store = store; next = suc w.next }) w.next (new_flight key config), nothing)

-- `load_session` returns, and the promise is given its value, or it throws.
unfoldable pub finish_flight : World → ℕ → Flight → Stage → Outcome → World × Reply
finish_flight w p f loading built = (put w p (record f { stage = made }), nothing)
finish_flight w p f loading (refused s) = (put w p (record f { stage = failed s }), nothing)
finish_flight w p f loading threw = (put w p (record f { stage = broken; loader = false }), raised)
finish_flight w p f _ outcome = (w, nothing)

-- The second critical section, and the return of the loading call.
unfoldable pub publish_flight : World → ℕ → Flight → Stage → Bool → World × Reply
publish_flight w p f made true = (
  put (record w { store = end_acquire f.key p true w.store }) p
      (record f { loader = false; handles = f.handles + 1 }),
  session p,
)
publish_flight w p f (failed s) true = (
  put (record w { store = end_acquire f.key p false w.store }) p (record f { loader = false }),
  error s,
)
publish_flight w p f _ _ = (w, nothing)

-- `pending.get()` of a call that waits: the promise has its value, or is broken.
unfoldable pub wake_flight : World → ℕ → Flight → Stage → World × Reply
wake_flight w p f made =
    if ltb 0 f.waiters
    then (put w p (record f { waiters = f.waiters - 1; handles = f.handles + 1 }), session p)
    else (w, nothing)
wake_flight w p f (failed s) =
    if ltb 0 f.waiters
    then (put w p (record f { waiters = f.waiters - 1 }), error concurrent_failure)
    else (w, nothing)
wake_flight w p f broken =
    if ltb 0 f.waiters
    then (put w p (record f { waiters = f.waiters - 1 }), raised)
    else (w, nothing)
wake_flight w p f loading = (w, nothing)

-- The last copy of an embedder goes away.
unfoldable pub drop_flight : World → ℕ → Flight → World × Reply
drop_flight w p f =
    if ltb 0 f.handles
    then (put w p (record f { handles = f.handles - 1 }), nothing)
    else (w, nothing)

unfoldable pub step : World → Event → World × Reply
unfolding configure begin_acquire decided finish_flight publish_flight wake_flight drop_flight
step w (configured config) = (record w { store = configure config w.store }, nothing)
step w (called key) = decided w key (begin_acquire (is_live w.flights) key w.next w.store)
step w (finished p outcome) = at_flight w p (λ f. finish_flight w p f f.stage outcome)
step w (published p) = at_flight w p (λ f. publish_flight w p f f.stage f.loader)
step w (woken p) = at_flight w p (λ f. wake_flight w p f f.stage)
step w (dropped p) = at_flight w p (λ f. drop_flight w p f)

unfoldable pub run : World → List Event → World
unfolding step
run w [] = w
run w (e ∷ es) = run (step w e).0 es

-- The process at its start.
abbrev pub start : CacheConfig → World
start config = record {
  store = record { entries = []; config = config; shared = 0; loaded = 0 };
  flights = λ _. none;
  next = 0;
}
