-- ===== src/Resolve/Examples.antt =====
-- src/resolve.cpp on a file that a second transfer brings, with a digest that is the bytes themselves.
use mathlib.Core.List.{append-nil, append_assoc}
use cyborgdb_embed.Prelude.{
  ℕ, zero, suc, ◌≡◌, ◌≢◌, refl, ◌⊎◌, true, false, List, [], ◌∷◌, ◌++◌, Option, none, some, codes,
}
use cyborgdb_embed.Status.{Status, success, is_ok, Ending, ends}
use cyborgdb_embed.Config.{CacheConfig}
use cyborgdb_embed.Resolve.Download.{
  curl_ok, recv_error, Transfer, System, Machine, max_attempts, download,
}
use cyborgdb_embed.Resolve.Retries.{Retried, download_lem}
use cyborgdb_embed.Resolve.Digest.{Digest, hex, delivered, sha256_file}
use cyborgdb_embed.Resolve.Streaming.{IsStreaming, sha256_file_lem}
use cyborgdb_embed.Resolve.Install.{Files, ensure_file, partial_path}
use cyborgdb_embed.Prelude.{Text, text_eq}
use cyborgdb_embed.Registry.{e5_base_v2, e5_small_v2, rank}
use cyborgdb_embed.Registry.Table.{registry, e5_base_v2_entry, e5_small_v2_entry}
use cyborgdb_embed.Registry.Lookup.{find, find_in}
use cyborgdb_embed.Resolve.Install.Frame.{ensure_file_frame}
use cyborgdb_embed.Resolve.Paths.{cached_graph_path_distinct}
use cyborgdb_embed.Resolve.{cached_graph_path}
use cyborgdb_embed.Resolve.Install.Verified.{ensure_file_verified}

abbrev bytes_digest : Digest
bytes_digest = record {
  Context = List ℕ;
  init = [];
  update = λ c bytes. c ++ bytes;
  final = λ c. c;
}

abbrev second_time : ℕ → Transfer
second_time zero = record {
  code = recv_error;
  http = 0;
  retry_after = 3;
  detail = codes "reset";
  body = [];
}
second_time (suc n) = record {
  code = curl_ok;
  http = 200;
  retry_after = 0;
  detail = [];
  body = 10 ∷ 255 ∷ [];
}

abbrev network : System
network = record {
  vars = λ _. none;
  is_regular_file = λ _. false;
  initialises = λ _. true;
  is_writable = λ _. true;
  perform = λ n url ca header. second_time n;
  keeps = λ _ _. false;
}

abbrev obliging : Files
obliging = record {
  create_error = λ _. none;
  rename_error = λ _ _. none;
  exists_error = λ _ _. false;
  read_stops = λ _. none;
  random = λ n. (n, 7);
}

abbrev empty_machine : Machine
empty_machine = record { disk = λ _. none; transfers = 0; slept = [] }

abbrev online : CacheConfig
online = record { cache_dir = codes "/c"; endpoint = codes "https://e"; offline = false }

download_lem_example :
    (s : Status) × (m' : Machine) × (download network
        (codes "https://e/f")
        (codes "/c/f")
        empty_machine
      ≡ some (s, m'))
    × Retried max_attempts empty_machine m'
download_lem_example = download_lem network (codes "https://e/f") (codes "/c/f") empty_machine

abbrev machine_of : Option (Ending × Machine) → Machine
machine_of none = empty_machine
machine_of (some r) = r.1

abbrev installed : Machine
installed = machine_of (
    ensure_file bytes_digest network obliging (codes "m") (codes "r") (codes "f") (codes "0aff")
      online (codes "/c/f") empty_machine)

ensure_file_verified_example :
    ((bytes : List ℕ) × (empty_machine.disk (codes "/c/f") ≡ some bytes)
      × (success ≡ success)
      × (installed ≡ empty_machine))
    ⊎ (empty_machine.disk (codes "/c/f") ≡ none)
      × ((is_ok success ≡ true)
            × (sha256_file bytes_digest (λ _. none) installed.disk (codes "/c/f")
                ≡ (success, codes "0aff"))
          ⊎ (is_ok success ≡ false) × (installed.disk (codes "/c/f") ≡ none))
unfolding ensure_file
ensure_file_verified_example =
    ensure_file_verified bytes_digest network obliging (codes "m") (codes "r") (codes "f")
      (codes "0aff") online (codes "/c/f") empty_machine success installed refl

bytes_digest-IsStreaming : IsStreaming bytes_digest
bytes_digest-IsStreaming = record {
  no_data = λ c. append-nil c;
  more_data = λ c a b. append_assoc c a b;
}

sha256_file_lem_example :
    sha256_file bytes_digest (λ _. some 1) (λ _. some (10 ∷ 255 ∷ [])) (codes "/c/f")
    ≡ (success, hex (bytes_digest.final (bytes_digest.update bytes_digest.init (10 ∷ []))))
unfolding delivered
sha256_file_lem_example =
    sha256_file_lem bytes_digest bytes_digest-IsStreaming (λ _. some 1) (λ _. some (10 ∷ 255 ∷ []))
      (codes "/c/f") (10 ∷ 255 ∷ []) refl

ensure_file_frame_example :
    (installed ≡ empty_machine)
    ⊎ ((installed.disk (partial_path bytes_digest network obliging (codes "/c/f") empty_machine)
          ≡ none)
        ⊎ (false ≡ true))
      × ((q : Text)
          → text_eq (codes "/c/f") q ≡ false
          → text_eq (partial_path bytes_digest network obliging (codes "/c/f") empty_machine) q
            ≡ false
          → installed.disk q ≡ none)
unfolding ensure_file
ensure_file_frame_example =
    ensure_file_frame bytes_digest network obliging (codes "m") (codes "r") (codes "f")
      (codes "0aff") online (codes "/c/f") empty_machine (ends success) installed refl

base_small : e5_base_v2 ≡ e5_small_v2 → ⊥
base_small e = cc

cached_graph_path_distinct_example :
    cached_graph_path (λ _. none) e5_base_v2_entry online
    ≢ cached_graph_path (λ _. none) e5_small_v2_entry online
unfolding find find_in registry rank
cached_graph_path_distinct_example =
    cached_graph_path_distinct (λ _. none) online e5_base_v2 e5_small_v2 e5_base_v2_entry
      e5_small_v2_entry base_small refl refl
