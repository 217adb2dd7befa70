-- ===== src/Resolve/Install/Frame.antt =====
-- src/resolve.cpp, `ensure_file`: the other files, and the partial file.
use cyborgdb_embed.Prelude.{
  ◌≡◌, refl, sym, subst, ◌∙◌, ◌⊎◌, inl, inr, true, false, Option, none, some, Bool-cases,
  Option-cases, Text, text_eq,
}
use cyborgdb_embed.Status.{Status, is_ok, Ending}
use cyborgdb_embed.Config.{CacheConfig}
use cyborgdb_embed.Resolve.{parent_path}
use cyborgdb_embed.Resolve.Download.{remove_file, System, Machine, download}
use cyborgdb_embed.Resolve.Retries.{some_pair}
use cyborgdb_embed.Resolve.Digest.{Digest, sha256_file}
use cyborgdb_embed.Resolve.Install.{
  Files, clean, returned, rename, verify, install, partial_path, file_url, fetch_file, ensure_file,
}
use cyborgdb_embed.Resolve.Writes.{
  put_other, remove_other, removed_self, removed_other, none-some, some_injective, download_other,
}

module _ (sha : Digest) (sys : System) (files : Files) where
  module _ (model repo_path expected partial path q : Text) (other : text_eq path q ≡ false)
      (apart : text_eq partial q ≡ false) (m : Machine) where
    rename_other : (rename sha sys files partial path m).1.disk q ≡ m.disk q
    unfolding rename
    rename_other = elim (Option-cases (files.rename_error partial path)) [
      | inr (what, e) ↦ rw (rename, e) refl
      | inl e ↦ elim (Option-cases (m.disk partial)) [
        | inl gone ↦ rw (rename, e, gone) refl
        | inr (bytes, there) ↦
            rw (rename, e, there)
              (put_other (remove_file m.disk partial) path q bytes other
                ∙ remove_other m.disk partial q apart)
      ]
    ]

    verify_other :
        (verify sha sys files model repo_path expected partial path m).1.disk q ≡ m.disk q
    unfolding verify
    verify_other = elim (Bool-cases (is_ok (sha256_file sha files.read_stops m.disk partial).0)) [
      | inr bad ↦ rw (verify, bad) refl
      | inl good ↦
          elim (Bool-cases (text_eq (sha256_file sha files.read_stops m.disk partial).1 expected)) [
            | inr wrong ↦ rw (verify, good, wrong) refl
            | inl right ↦ rw (verify, good, right) rename_other
          ]
    ]

  -- The partial file is gone or its removal failed, and every other file but that at the path is as
  -- it was.
  abbrev Framed : Text → Text → Machine → Machine → Type 0
  Framed partial path m n =
      ((n.disk partial ≡ none) ⊎ (sys.keeps n.transfers partial ≡ true))
      × ((q : Text) → text_eq path q ≡ false → text_eq partial q ≡ false → n.disk q ≡ m.disk q)

  -- `~PartialFile`, after what left the other files alone.
  clean-Framed :
      (partial path : Text) (m n : Machine)
      → ((q : Text) → text_eq path q ≡ false → text_eq partial q ≡ false → n.disk q ≡ m.disk q)
      → Framed partial path m (clean sys partial n)
  unfolding clean
  clean-Framed partial path m n same = (
    removed_self sys n.transfers n.disk partial,
    λ q other apart. removed_other sys n.transfers n.disk partial q apart ∙ same q other apart,
  )

  install-Framed :
      (model repo_path expected partial path : Text) (status s : Status) (m n : Machine)
      → install sha sys files model repo_path expected partial path (some (status, m)) ≡ some (s, n)
      → Framed partial path m n
  unfolding install
  install-Framed model repo_path expected partial path status s m n e =
      elim (Bool-cases (is_ok status)) [
        | inl good ↦
            let v = verify sha sys files model repo_path expected partial path m in
            subst (λ (r : Status × Machine). Framed partial path m r.1)
              (some_injective (rw good at e))
              (clean-Framed partial path m v.1 (λ q other apart.
                verify_other model repo_path expected partial path q other apart m))
        | inr bad ↦
            subst (λ (r : Status × Machine). Framed partial path m r.1)
              (some_injective (rw bad at e)) (clean-Framed partial path m m (λ q other apart. refl))
      ]

  module _ (model revision repo_path expected : Text) (config : CacheConfig) (path : Text)
      (m : Machine) where
    abbrev partial : Text
    partial = partial_path sha sys files path m

    downloaded-Framed :
        (d : Option (Status × Machine)) (s : Status) (n : Machine)
        → download sys (file_url sha sys files model revision repo_path config) partial m ≡ d
        → install sha sys files model repo_path expected partial path d ≡ some (s, n)
        → Framed partial path m n
    unfolding install
    downloaded-Framed none s n made e = absurd (none-some e)
    downloaded-Framed (some (status, m1)) s n made e =
        let (gone, others) = install-Framed model repo_path expected partial path status s m1 n e in
        (
          gone,
          λ q other apart.
              others q other apart
              ∙ download_other sys (file_url sha sys files model revision repo_path config) partial
                  q m m1 status apart made,
        )

    fetched-Framed :
        (s : Status) (n : Machine)
        → fetch_file sha sys files model revision repo_path expected config path m ≡ some (s, n)
        → (n ≡ m) ⊎ Framed partial path m n
    unfolding fetch_file
    fetched-Framed s n e = elim (Bool-cases config.offline) [
      | inl offline ↦ inl (sym (some_pair (rw offline at e)).1)
      | inr online ↦ elim (Option-cases (files.create_error (parent_path path))) [
        | inr (what, fails) ↦ inl (sym (some_pair (rw (online, fails) at e)).1)
        | inl created ↦ inr (
            downloaded-Framed
              (download sys (file_url sha sys files model revision repo_path config) partial m) s n
              refl (rw (online, created) at e))
      ]
    ]

    returned-Framed :
        (r : Option (Status × Machine)) (s : Ending) (n : Machine)
        → fetch_file sha sys files model revision repo_path expected config path m ≡ r
        → returned r ≡ some (s, n)
        → (n ≡ m) ⊎ Framed partial path m n
    unfolding returned
    returned-Framed none s n fetched e = absurd (none-some e)
    returned-Framed (some (t, k)) s n fetched e =
        subst (λ x. (x ≡ m) ⊎ Framed partial path m x) (some_pair e).1 (fetched-Framed t k fetched)

    -- However the transfers, the file system and the digest behave, and whether it returns or throws,
    -- `ensure_file` changes nothing at all, or every file but the one it is asked for and its partial
    -- file is as it was, and the partial file is gone unless its removal failed.
    pub ensure_file_frame :
        (s : Ending) (n : Machine)
        → ensure_file sha sys files model revision repo_path expected config path m ≡ some (s, n)
        → (n ≡ m)
          ⊎ ((n.disk (partial_path sha sys files path m) ≡ none)
              ⊎ (sys.keeps n.transfers (partial_path sha sys files path m) ≡ true))
            × ((q : Text)
                → text_eq path q ≡ false
                → text_eq (partial_path sha sys files path m) q ≡ false
                → n.disk q ≡ m.disk q)
    unfolding ensure_file
    ensure_file_frame s n e = elim (Bool-cases (files.exists_error m path)) [
      | inl fails ↦ inl (sym (some_pair (rw fails at e)).1)
      | inr looks ↦ elim (Option-cases (m.disk path)) [
        | inr (bytes, there) ↦ inl (sym (some_pair (rw (looks, there) at e)).1)
        | inl gone ↦
            returned-Framed
              (fetch_file sha sys files model revision repo_path expected config path m) s n refl
              (rw (looks, gone) at e)
      ]
    ]
