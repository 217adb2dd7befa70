-- ===== src/Store.antt =====
-- src/session_store.hpp and src/session_store.cpp: the store's record, and what each critical section
-- of `SessionStore` does to it. A session and the promise of the load that makes it share a number.
pub mod Keys
pub mod World
pub mod Invariant
pub mod Updates
pub mod Changes
pub mod Branches
pub mod Steps
pub mod Reachable
pub mod Sessions
pub mod Order
pub mod Ordered
pub mod Listed
pub mod Reported
pub mod Alone
pub mod Poisoned
pub mod Poison
pub mod Lifecycle
pub mod Edges
pub mod Refinement
mod Examples
use cyborgdb_embed.Prelude.{
  ℕ, suc, ◌+◌, ◌≡◌, refl, ◌↔◌, Bool, true, false, not, ◌&&◌, List, [], ◌∷◌, Option, none, some, ltb,
  ◌==◌, ==_iff, if◌then◌else◌, arith,
}
use cyborgdb_embed.Config.{CacheConfig}
use cyborgdb_embed.Registry.{
  ModelId, Provider, cpu, Precision, fp32, fp16, int8, rank, provider_rank, precision_rank,
  rank_injective,
}

pub record Key : Type 0 where
  pub model : ModelId
  pub provider : Provider
  pub precision : Precision

-- `Key::operator<`.
unfoldable pub key_lt : Key → Key → Bool
key_lt a b =
    if not (rank a.model == rank b.model)
    then ltb (rank a.model) (rank b.model)
    else if not (provider_rank a.provider == provider_rank b.provider)
    then ltb (provider_rank a.provider) (provider_rank b.provider)
    else ltb (precision_rank a.precision) (precision_rank b.precision)

-- Keys that neither precedes the other are one key to `std::map`.
unfoldable pub key_eq : Key → Key → Bool
unfolding key_lt
key_eq a b = not (key_lt a b) && not (key_lt b a)

-- The weak pointer, and the future where it is valid.
pub record Entry : Type 0 where
  pub session : Option ℕ
  pub pending : Option ℕ

pub record Store : Type 0 where
  pub entries : List (Key × Entry)
  pub config : CacheConfig
  pub shared : ℕ
  pub loaded : ℕ

unfoldable pub find : Key → List (Key × Entry) → Option Entry
find k [] = none
find k ((j, e) ∷ m) = if key_eq j k then some e else find k m

-- `entries_[key] = entry`, in the order of the keys.
unfoldable pub insert : Key → Entry → List (Key × Entry) → List (Key × Entry)
insert k e [] = (k, e) ∷ []
insert k e ((j, f) ∷ m) =
    if key_eq j k
    then (k, e) ∷ m
    else if key_lt k j
    then (k, e) ∷ (j, f) ∷ m
    else (j, f) ∷ insert k e m

unfoldable pub erase : Key → List (Key × Entry) → List (Key × Entry)
erase k [] = []
erase k ((j, e) ∷ m) = if key_eq j k then erase k m else (j, e) ∷ erase k m

-- `SessionStore::configure`.
unfoldable pub configure : CacheConfig → Store → Store
configure config store = record store { config = config }

-- What the first critical section of `acquire` decides.
pub data Decision : Type 0 where
  reuse : ℕ → Decision
  wait : ℕ → Decision
  load : CacheConfig → Decision

-- `weak_ptr::lock`.
abbrev pub lock : (ℕ → Bool) → Option ℕ → Option ℕ
lock live none = none
lock live (some s) = if live s then some s else none

-- A fresh entry, pending on the promise `fresh`.
unfoldable pub start_load : Key → ℕ → Store → Store × Decision
unfolding insert
start_load key fresh store = (
  record store {
    entries = insert key (record { session = none; pending = some fresh }) store.entries;
    loaded = store.loaded + 1;
  },
  load store.config,
)

unfoldable pub visit_entry : (ℕ → Bool) → Key → ℕ → Store → Entry → Store × Decision
unfolding start_load
visit_entry live key fresh store e = elim (lock live e.session) [
  | some s ↦ (record store { shared = store.shared + 1 }, reuse s)
  | none ↦ elim e.pending [
    | some p ↦ (record store { shared = store.shared + 1 }, wait p)
    | none ↦ start_load key fresh store
  ]
]

-- The first critical section.
unfoldable pub begin_acquire : (ℕ → Bool) → Key → ℕ → Store → Store × Decision
unfolding find visit_entry
begin_acquire live key fresh store = elim (find key store.entries) [
  | some e ↦ visit_entry live key fresh store e
  | none ↦ start_load key fresh store
]

-- The second critical section, after the load of session `p`.
unfoldable pub end_acquire : Key → ℕ → Bool → Store → Store
unfolding find insert erase
end_acquire key p ok store = elim (find key store.entries) [
  | none ↦ store
  | some e ↦
      if ok
      then record store {
        entries = insert key (record { session = some p; pending = none }) store.entries;
      }
      else record store { entries = erase key store.entries }
]

pub record LoadedModel : Type 0 where
  pub key : Key
  pub handles : ℕ

-- `loaded`: the entries whose session lives, with the references other than the lock's own.
unfoldable pub loaded_models : (ℕ → ℕ) → List (Key × Entry) → List LoadedModel
loaded_models use_count [] = []
loaded_models use_count ((k, e) ∷ m) = elim (lock (λ s. ltb 0 (use_count s)) e.session) [
  | none ↦ loaded_models use_count m
  | some s ↦ record { key = k; handles = use_count s } ∷ loaded_models use_count m
]

pub record LoadStats : Type 0 where
  pub shared : ℕ
  pub loaded : ℕ

unfoldable pub stats : Store → LoadStats
stats store = record { shared = store.shared; loaded = store.loaded }
