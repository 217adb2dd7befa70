-- ===== src/Resolve/Install/Verified.antt =====
-- src/resolve.cpp, `ensure_file`: what stands at the path afterwards.
use cyborgdb_embed.Prelude.{
  ℕ, ◌≡◌, refl, sym, ap, subst, ◌∙◌, ◌⊎◌, inl, inr, true, false, List, Option, none, some,
  Bool-cases, Option-cases, Text, text_eq, text_eq→eq,
}
use cyborgdb_embed.Status.{Status, success, is_ok, Ending, ends, throws}
use cyborgdb_embed.Config.{CacheConfig}
use cyborgdb_embed.Resolve.{parent_path}
use cyborgdb_embed.Resolve.Download.{Disk, put_file, remove_file, System, Machine, download}
use cyborgdb_embed.Resolve.Retries.{some_pair}
use cyborgdb_embed.Resolve.Digest.{Digest, Reads, delivered, digest_of, sha256_file}
use cyborgdb_embed.Resolve.Install.{
  Files, clean, returned, rename, verify, install, partial_path, file_url, fetch_file, ensure_file,
}
use cyborgdb_embed.Resolve.Writes.{
  longer, put_self, removed_other, none-some, some_injective, download_other,
}

pub ends_injective : {s t : Status} → ends s ≡ ends t → s ≡ t
ends_injective e = cc

threw_ended : {s : Status} {m n : Machine} → ◌≡◌ {A = Ending × Machine} (throws, m) (ends s, n) → ⊥
threw_ended e = cc

fetched_ends :
    (r : Option (Status × Machine)) (s : Status) (m : Machine)
    → returned r ≡ some (ends s, m)
    → r ≡ some (s, m)
unfolding returned
fetched_ends none s m e = absurd (none-some e)
fetched_ends (some (t, n)) s m e = cc

module _ (sha : Digest) (sys : System) (files : Files) where
  -- The file at the path has the expected digest, read as far as the file under the other name is; or
  -- the call has failed and the path is as it was.
  abbrev Outcome : Text → Text → Text → Option (List ℕ) → Status × Machine → Type 0
  Outcome partial expected path before (s, m) =
      (is_ok s ≡ true)
        × (sha256_file sha (λ _. files.read_stops partial) m.disk path ≡ (success, expected))
      ⊎ (is_ok s ≡ false) × (m.disk path ≡ before)

  digest_some :
      (reads : Reads) (disk : Disk) (p : Text) (bytes : List ℕ)
      → disk p ≡ some bytes
      → sha256_file sha reads disk p ≡ (success, digest_of sha (delivered (reads p) bytes))
  unfolding sha256_file
  digest_some reads disk p bytes e = rw (sha256_file, e)

  module _ (model repo_path expected partial path : Text) (m : Machine)
      (apart : text_eq partial path ≡ false) where
    cleaned : (n : Machine) → (clean sys partial n).disk path ≡ n.disk path
    unfolding clean
    cleaned n = removed_other sys n.transfers n.disk partial path apart

    -- What the digest is taken of.
    abbrev heard : List ℕ → List ℕ
    heard bytes = delivered (files.read_stops partial) bytes

    abbrev Done : Status × Machine → Type 0
    Done r = Outcome partial expected path (m.disk path) (r.0, clean sys partial r.1)

    -- A failure that leaves the machine as it is.
    abbrev Refused : Status × Machine → Type 0
    Refused r = (is_ok r.0 ≡ false) × (r.1 ≡ m)

    Refused-Done : (r : Status × Machine) → Refused r → Done r
    Refused-Done r (bad, e) = inr (bad, cleaned r.1 ∙ ap (λ (x : Machine). x.disk path) e)

    rename-Refused :
        (what : Text)
        → files.rename_error partial path ≡ some what
        → Refused (rename sha sys files partial path m)
    unfolding rename
    rename-Refused what e = (rw (rename, e), rw (rename, e))

    rename_made :
        (bytes : List ℕ)
        → files.rename_error partial path ≡ none
        → m.disk partial ≡ some bytes
        → rename sha sys files partial path m
          ≡ (success, record m { disk = put_file (remove_file m.disk partial) path bytes })
    unfolding rename
    rename_made bytes e there = rw (rename, e, there)

    rename-Outcome :
        (bytes : List ℕ)
        → m.disk partial ≡ some bytes
        → digest_of sha (heard bytes) ≡ expected
        → Done (rename sha sys files partial path m)
    rename-Outcome bytes there right = elim (Option-cases (files.rename_error partial path)) [
      | inr (what, e) ↦ Refused-Done (rename sha sys files partial path m) (rename-Refused what e)
      | inl e ↦ subst Done (sym (rename_made bytes e there)) (
          inl (
            refl,
            digest_some (λ _. files.read_stops partial)
                  (clean sys partial
                    (record m { disk = put_file (remove_file m.disk partial) path bytes })).disk
                  path bytes
                  (cleaned (record m { disk = put_file (remove_file m.disk partial) path bytes })
                    ∙ put_self (remove_file m.disk partial) path bytes)
                ∙ ap (λ d. (success, d)) right,
          ))
    ]

    verify_unread :
        m.disk partial ≡ none
        → Refused (verify sha sys files model repo_path expected partial path m)
    unfolding verify sha256_file
    verify_unread gone = (rw (verify, sha256_file, gone), rw (verify, sha256_file, gone))

    verify_wrong :
        (bytes : List ℕ)
        → m.disk partial ≡ some bytes
        → text_eq (digest_of sha (heard bytes)) expected ≡ false
        → Refused (verify sha sys files model repo_path expected partial path m)
    unfolding verify
    verify_wrong bytes there wrong = (
      rw (verify, digest_some files.read_stops m.disk partial bytes there, wrong),
      rw (verify, digest_some files.read_stops m.disk partial bytes there, wrong),
    )

    verify_right :
        (bytes : List ℕ)
        → m.disk partial ≡ some bytes
        → text_eq (digest_of sha (heard bytes)) expected ≡ true
        → verify sha sys files model repo_path expected partial path m
          ≡ rename sha sys files partial path m
    unfolding verify
    verify_right bytes there right =
        rw (verify, digest_some files.read_stops m.disk partial bytes there, right)

    verify-Outcome : Done (verify sha sys files model repo_path expected partial path m)
    verify-Outcome = elim (Option-cases (m.disk partial)) [
      | inl gone ↦
          Refused-Done (verify sha sys files model repo_path expected partial path m)
            (verify_unread gone)
      | inr (bytes, there) ↦ elim (Bool-cases (text_eq (digest_of sha (heard bytes)) expected)) [
        | inl right ↦
            subst Done (sym (verify_right bytes there right))
              (rename-Outcome bytes there (text_eq→eq (digest_of sha (heard bytes)) expected right))
        | inr wrong ↦
            Refused-Done (verify sha sys files model repo_path expected partial path m)
              (verify_wrong bytes there wrong)
      ]
    ]

  install-Outcome :
      (model repo_path expected partial path : Text) (status s : Status) (m m' : Machine)
      → text_eq partial path ≡ false
      → install sha sys files model repo_path expected partial path (some (status, m))
        ≡ some (s, m')
      → Outcome partial expected path (m.disk path) (s, m')
  unfolding install
  install-Outcome model repo_path expected partial path status s m m' apart e =
      elim (Bool-cases (is_ok status)) [
        | inl good ↦
            subst (Outcome partial expected path (m.disk path)) (some_injective (rw good at e))
              (verify-Outcome model repo_path expected partial path m apart)
        | inr bad ↦
            subst (Outcome partial expected path (m.disk path)) (some_injective (rw bad at e))
              (inr (bad, cleaned model repo_path expected partial path m apart m))
      ]

  module _ (model revision repo_path expected : Text) (config : CacheConfig) (path : Text)
      (m : Machine) where
    abbrev partial : Text
    partial = partial_path sha sys files path m

    partial_apart : text_eq partial path ≡ false
    partial_apart = longer path _ b'.'

    downloaded-Outcome :
        (d : Option (Status × Machine)) (s : Status) (m' : Machine)
        → download sys (file_url sha sys files model revision repo_path config) partial m ≡ d
        → install sha sys files model repo_path expected partial path d ≡ some (s, m')
        → Outcome partial expected path (m.disk path) (s, m')
    unfolding install
    downloaded-Outcome none s m' made e = absurd (none-some e)
    downloaded-Outcome (some (status, m1)) s m' made e =
        subst (λ before. Outcome partial expected path before (s, m'))
          (download_other sys (file_url sha sys files model revision repo_path config) partial path
            m m1 status partial_apart made)
          (install-Outcome model repo_path expected partial path status s m1 m' partial_apart e)

    fetch-Outcome :
        (s : Status) (m' : Machine)
        → fetch_file sha sys files model revision repo_path expected config path m ≡ some (s, m')
        → Outcome partial expected path (m.disk path) (s, m')
    unfolding fetch_file
    fetch-Outcome s m' e = elim (Bool-cases config.offline) [
      | inl offline ↦
          subst (Outcome partial expected path (m.disk path)) (some_injective (rw offline at e))
            (inr (refl, refl))
      | inr online ↦ elim (Option-cases (files.create_error (parent_path path))) [
        | inr (what, refused) ↦
            subst (Outcome partial expected path (m.disk path))
              (some_injective (rw (online, refused) at e)) (inr (refl, refl))
        | inl created ↦
            downloaded-Outcome
              (download sys (file_url sha sys files model revision repo_path config) partial m) s m'
              refl (rw (online, created) at e)
      ]
    ]

    -- However the transfers, the file system and the digest behave, a call that returns: where the file
    -- was there, it succeeds and changes nothing; where it was not, either it succeeds and what now
    -- stands at the path has the expected digest, taken of the bytes that the reading of the partial
    -- file delivered (all of them, or those before a read error), or it fails and still nothing stands
    -- there.
    pub ensure_file_verified :
        (s : Status) (m' : Machine)
        → ensure_file sha sys files model revision repo_path expected config path m
          ≡ some (ends s, m')
        → ((bytes : List ℕ) × (m.disk path ≡ some bytes) × (s ≡ success) × (m' ≡ m))
          ⊎ (m.disk path ≡ none)
            × ((is_ok s ≡ true)
                  × (sha256_file sha
                        (λ _. files.read_stops (partial_path sha sys files path m))
                        m'.disk
                        path
                      ≡ (success, expected))
                ⊎ (is_ok s ≡ false) × (m'.disk path ≡ none))
    unfolding ensure_file returned
    ensure_file_verified s m' e = elim (Bool-cases (files.exists_error m path)) [
      | inl fails ↦ absurd (threw_ended (some_injective (rw fails at e)))
      | inr looks ↦ elim (Option-cases (m.disk path)) [
        | inr (bytes, there) ↦
            let (s', m'') = some_pair (rw (looks, there) at e) in
            inl (bytes, there, ends_injective (sym s'), sym m'')
        | inl gone ↦ inr (
          gone,
          subst (λ before. Outcome partial expected path before (s, m')) gone
              (fetch-Outcome s m' (
                fetched_ends
                  (fetch_file sha sys files model revision repo_path expected config path m) s m'
                  (rw (looks, gone) at e))),
        )
      ]
    ]
