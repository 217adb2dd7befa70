-- ===== src/Resolve/Streaming.antt =====
-- src/resolve.cpp, `sha256_file`: the digest of the buffers is that of the file.
use cyborgdb_embed.Prelude.{
  ℕ, zero, suc, ◌≤◌, ◌≡◌, sym, ap, ◌∙◌, List, [], ◌∷◌, ◌++◌, some, Text, length, take, drop,
  take-append-drop, length-drop, arith,
}
use cyborgdb_embed.Status.{success}
use cyborgdb_embed.Resolve.Download.{Disk}
use cyborgdb_embed.Resolve.Digest.{
  Digest, hex, buffer_size, update_all, Reads, delivered, digest_of, sha256_file,
}

-- What `EVP_DigestUpdate` is documented to do: it may be called many times to hash additional data.
pub record IsStreaming (sha : Digest) : Type 0 where
  pub no_data : (c : sha.Context) → sha.update c [] ≡ c
  pub more_data :
      (c : sha.Context) (a b : List ℕ) → sha.update (sha.update c a) b ≡ sha.update c (a ++ b)

module _ (sha : Digest) (law : IsStreaming sha) where
  update_whole :
      (fuel : ℕ) (c : sha.Context) (bytes : List ℕ)
      → length bytes ≤ fuel
      → update_all sha fuel c bytes ≡ sha.update c bytes
  unfolding update_all
  update_whole fuel c [] h = sym (law.no_data c)
  update_whole zero c (b ∷ bytes) h = absurd (omega arith)
  update_whole (suc fuel) c (b ∷ bytes) h =
      update_whole fuel (sha.update c (take buffer_size (b ∷ bytes))) (drop buffer_size (b ∷ bytes))
        (omega (arith, length-drop buffer_size (b ∷ bytes)))
      ∙ law.more_data c (take buffer_size (b ∷ bytes)) (drop buffer_size (b ∷ bytes))
      ∙ ap (sha.update c) (take-append-drop buffer_size (b ∷ bytes))

  -- Where updates with two pieces are one with both, the digest of a file that can be opened is that
  -- of the bytes that its stream delivers at once, however many buffers they fill: all its bytes, or
  -- those before a read error.
  pub sha256_file_lem :
      (reads : Reads) (disk : Disk) (path : Text) (bytes : List ℕ)
      → disk path ≡ some bytes
      → sha256_file sha reads disk path
        ≡ (success, hex (sha.final (sha.update sha.init (delivered (reads path) bytes))))
  unfolding sha256_file digest_of
  sha256_file_lem reads disk path bytes e =
      rw (sha256_file, e)
        (ap (λ c. (success, hex (sha.final c)))
          (update_whole (length (delivered (reads path) bytes)) sha.init
            (delivered (reads path) bytes) (omega arith)))
