-- ===== src/Resolve/Install/Total.antt =====
-- src/resolve.cpp, `ensure_file`: the retries end, so the call ends.
use cyborgdb_embed.Prelude.{
  ◌≡◌, refl, sym, ap, ◌∙◌, inl, inr, Option, none, some, Bool-cases, Option-cases, Text,
}
use cyborgdb_embed.Status.{Status, success, is_ok, Ending, ends, throws}
use cyborgdb_embed.Config.{CacheConfig}
use cyborgdb_embed.Resolve.{parent_path}
use cyborgdb_embed.Resolve.Download.{System, Machine}
use cyborgdb_embed.Resolve.Retries.{download_lem}
use cyborgdb_embed.Resolve.Digest.{Digest}
use cyborgdb_embed.Resolve.Install.{
  Files, returned, install, partial_path, file_url, fetch_file, ensure_file,
}

some-none : {A : Type 0} {a : A} → ◌≡◌ {A = Option A} (some a) none → ⊥
some-none e = cc

returned_ends : (s : Status) (n : Machine) → returned (some (s, n)) ≡ some (ends s, n)
unfolding returned
returned_ends s n = refl

module _ (sha : Digest) (sys : System) (files : Files) where
  install_returns :
      (model repo_path expected partial path : Text) (status : Status) (m : Machine)
      → install sha sys files model repo_path expected partial path (some (status, m)) ≡ none
      → ⊥
  unfolding install
  install_returns model repo_path expected partial path status m e =
      elim (Bool-cases (is_ok status)) [
        | inl good ↦ some-none (rw good at e)
        | inr bad ↦ some-none (rw bad at e)
      ]

  module _ (model revision repo_path expected : Text) (config : CacheConfig) (path : Text)
      (m : Machine) where
    fetch_returns :
        fetch_file sha sys files model revision repo_path expected config path m ≡ none → ⊥
    unfolding fetch_file
    fetch_returns e = elim (Bool-cases config.offline) [
      | inl offline ↦ some-none (rw offline at e)
      | inr online ↦ elim (Option-cases (files.create_error (parent_path path))) [
        | inr (what, refused) ↦ some-none (rw (online, refused) at e)
        | inl created ↦
            let partial = partial_path sha sys files path m in
            let (status, m', made, retried) =
              download_lem sys (file_url sha sys files model revision repo_path config) partial m in
            install_returns model repo_path expected partial path status m' (
              ap (install sha sys files model repo_path expected partial path) (sym made)
              ∙ (rw (online, created) at e))
      ]
    ]

    -- `ensure_file` comes to an end, whatever the transfers do.
    pub ensure_file_total :
        (r : Ending × Machine) × (ensure_file sha sys files model revision repo_path expected config
            path m
          ≡ some r)
    unfolding ensure_file
    ensure_file_total =
        let fetched = fetch_file sha sys files model revision repo_path expected config path m in
        elim (Bool-cases (files.exists_error m path)) [
          | inl fails ↦ ((throws, m), rw (ensure_file, fails) refl)
          | inr looks ↦ elim (Option-cases (m.disk path)) [
            | inr (bytes, there) ↦ ((ends success, m), rw (ensure_file, looks, there) refl)
            | inl gone ↦ elim (Option-cases fetched) [
              | inl e ↦ absurd (fetch_returns e)
              | inr ((s, n), e) ↦
                  ((ends s, n), (rw (ensure_file, looks, gone) (ap returned e ∙ returned_ends s n)))
            ]
          ]
        ]
