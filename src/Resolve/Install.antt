-- ===== src/Resolve/Install.antt =====
-- src/resolve.cpp: `ensure_file`, which downloads a file beside its place, verifies it and renames it,
-- and the two calls of it. The file system's refusals and the random words are parameters.
pub mod Verified
pub mod Total
pub mod Frame
use cyborgdb_embed.Prelude.{
  ℕ, zero, suc, ◌/◌, ◌%◌, Bool, true, false, not, List, [], ◌∷◌, ◌++◌, Option, none, some,
  if◌then◌else◌, Text, codes, text_eq,
}
use cyborgdb_embed.Status.{
  Status, success, is_ok, not_cached, download_failed, digest_mismatch, Ending, ends, throws,
}
use cyborgdb_embed.Config.{CacheConfig}
use cyborgdb_embed.Registry.{RegistryEntry}
use cyborgdb_embed.Resolve.{Variables, resolved_config, cached_graph_path, parent_path, join}
use cyborgdb_embed.Resolve.Download.{
  Disk, put_file, remove_file, remove_at, System, Machine, download,
}
use cyborgdb_embed.Resolve.Digest.{Digest, hex_digit, Reads, sha256_file}

-- The error messages of `create_directories` and `rename`, the paths that `exists` throws on, where
-- the reading of a file stops, and the words of `random_device`.
pub record Files : Type 0 where
  pub create_error : Text → Option Text
  pub rename_error : Text → Text → Option Text
  pub exists_error : Machine → Text → Bool
  pub read_stops : Reads
  pub random : ℕ → ℕ × ℕ

-- Hexadecimal digits, the last `n` of them.
unfoldable pub hex_digits : ℕ → ℕ → Text → Text
hex_digits zero value acc = acc
hex_digits (suc n) value acc = hex_digits n (value / 16) (hex_digit (value % 16) ∷ acc)

-- Two 32-bit words as `%016llx`.
unfoldable pub unique_suffix : ℕ × ℕ → Text
unfolding hex_digits
unique_suffix (high, low) = hex_digits 8 high (hex_digits 8 low [])

-- `~PartialFile`, whose removal may fail.
unfoldable pub clean : System → Text → Machine → Machine
unfolding remove_at
clean sys partial m = record m { disk = remove_at sys m.transfers m.disk partial }

-- The end of a call that returns.
unfoldable pub returned : Option (Status × Machine) → Option (Ending × Machine)
returned none = none
returned (some (status, m)) = some (ends status, m)

module _ (sha : Digest) (sys : System) (files : Files) where
  -- `fs::rename`: the file under its new name, or the error.
  unfoldable pub rename : Text → Text → Machine → Status × Machine
  unfolding put_file remove_file
  rename partial path m = elim (files.rename_error partial path) [
    | some what ↦ (
      record {
        code = download_failed;
        message = codes "cannot finalise " ++ (path ++ (codes ": " ++ what));
      },
      m,
    )
    | none ↦ elim (m.disk partial) [
      | none ↦ (
        record {
          code = download_failed;
          message = codes "cannot finalise " ++ (path ++ codes ": No such file or directory");
        },
        m,
      )
      | some bytes ↦ (success, record m { disk = put_file (remove_file m.disk partial) path bytes })
    ]
  ]

  -- The digest of what was downloaded, and the rename where it is the expected one.
  unfoldable pub verify : Text → Text → Text → Text → Text → Machine → Status × Machine
  unfolding rename sha256_file
  verify model repo_path expected partial path m =
      let r = sha256_file sha files.read_stops m.disk partial in
      if not (is_ok r.0)
      then (r.0, m)
      else if not (text_eq r.1 expected)
      then (
        record {
          code = digest_mismatch;
          message =
              model
              ++ (codes "/"
                  ++ (repo_path ++ (codes ": expected " ++ (expected ++ (codes ", got " ++ r.1)))));
        },
        m,
      )
      else rename partial path m

  -- After the download: what failed, or the verification; the partial file goes away.
  unfoldable pub install :
      Text → Text → Text → Text → Text → Option (Status × Machine) → Option (Status × Machine)
  unfolding verify clean
  install model repo_path expected partial path none = none
  install model repo_path expected partial path (some (status, m)) =
      let r = verify model repo_path expected partial path m in
      if not (is_ok status)
      then some (status, clean sys partial m)
      else some (r.0, clean sys partial r.1)

  abbrev pub partial_path : Text → Machine → Text
  partial_path path m = path ++ (codes ".partial-" ++ unique_suffix (files.random m.transfers))

  abbrev pub file_url : Text → Text → Text → CacheConfig → Text
  file_url model revision repo_path config =
      config.endpoint
      ++ (codes "/" ++ (model ++ (codes "/resolve/" ++ (revision ++ (codes "/" ++ repo_path)))))

  -- The part of `ensure_file` that runs where the file is absent.
  unfoldable pub fetch_file :
      Text → Text → Text → Text → CacheConfig → Text → Machine → Option (Status × Machine)
  unfolding install download unique_suffix parent_path
  fetch_file model revision repo_path expected config path m =
      let partial = partial_path path m in
      if config.offline
      then some (
        record { code = not_cached; message = model ++ codes " is not cached and offline is set" },
        m,
      )
      else elim (files.create_error (parent_path path)) [
        | some what ↦ some (
          record {
            code = download_failed;
            message = codes "cannot create cache directory: " ++ what;
          },
          m,
        )
        | none ↦
            install model repo_path expected partial path
              (download sys (file_url model revision repo_path config) partial m)
      ]

  -- `ensure_file`, where `exists` may throw; `none` is want of fuel in the download.
  unfoldable pub ensure_file :
      Text → Text → Text → Text → CacheConfig → Text → Machine → Option (Ending × Machine)
  unfolding fetch_file returned
  ensure_file model revision repo_path expected config path m =
      if files.exists_error m path then some (throws, m) else elim (m.disk path) [
        | some bytes ↦ some (ends success, m)
        | none ↦ returned (fetch_file model revision repo_path expected config path m)
      ]

  -- The path, and the outcome.
  unfoldable pub ensure_graph :
      RegistryEntry → CacheConfig → Machine → Text × Option (Ending × Machine)
  unfolding ensure_file cached_graph_path resolved_config
  ensure_graph entry given m =
      let config = resolved_config sys.vars given in
      let path = cached_graph_path sys.vars entry config in
      (
        path,
        ensure_file entry.info.name entry.info.revision entry.onnx_path entry.onnx_sha256 config
            path m,
      )

  unfoldable pub ensure_tokenizer :
      RegistryEntry → CacheConfig → Machine → Text × Option (Ending × Machine)
  unfolding ensure_file cached_graph_path resolved_config parent_path join
  ensure_tokenizer entry given m =
      let config = resolved_config sys.vars given in
      let path =
        join (parent_path (cached_graph_path sys.vars entry config)) (codes "tokenizer.json") in
      (
        path,
        ensure_file entry.info.name entry.info.revision (codes "tokenizer.json")
            entry.tokenizer_sha256 config path m,
      )
