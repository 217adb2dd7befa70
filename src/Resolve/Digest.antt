-- ===== src/Resolve/Digest.antt =====
-- src/resolve.cpp, `sha256_file`. OpenSSL's digest is a parameter.
use cyborgdb_embed.Prelude.{
  ℕ, zero, suc, ◌/◌, ◌%◌, List, [], ◌∷◌, ◌++◌, Option, none, some, Text, codes, length, get_or,
  take, drop,
}
use cyborgdb_embed.Status.{Status, success, download_failed}
use cyborgdb_embed.Resolve.Download.{Disk}

pub record Digest : Type 1 where
  pub Context : Type 0
  pub init : Context
  pub update : Context → List ℕ → Context
  pub final : Context → List ℕ

abbrev pub buffer_size : ℕ
buffer_size = 65536

abbrev pub hex_digit : ℕ → ℕ
hex_digit d = get_or (codes "0123456789abcdef") d 0

unfoldable pub hex : List ℕ → Text
hex [] = []
hex (byte ∷ raw) = hex_digit (byte / 16) ∷ hex_digit (byte % 16) ∷ hex raw

-- How many bytes of a file the stream delivers before a read error ends it; `none` is no error.
abbrev pub Reads : Type 0
Reads = Text → Option ℕ

-- What the stream delivers of the file.
unfoldable pub delivered : Option ℕ → List ℕ → List ℕ
delivered none bytes = bytes
delivered (some n) bytes = take n bytes

module _ (sha : Digest) where
  open sha use {Context}

  -- The loop over the buffers that the stream delivers, on fuel.
  unfoldable pub update_all : ℕ → Context → List ℕ → Context
  update_all fuel c [] = c
  update_all zero c (b ∷ bytes) = c
  update_all (suc fuel) c (b ∷ bytes) =
      update_all fuel (sha.update c (take buffer_size (b ∷ bytes))) (drop buffer_size (b ∷ bytes))

  unfoldable pub digest_of : List ℕ → Text
  unfolding update_all hex
  digest_of bytes = hex (sha.final (update_all (length bytes) sha.init bytes))

  unfoldable pub sha256_file : Reads → Disk → Text → Status × Text
  unfolding digest_of delivered
  sha256_file reads disk path = elim (disk path) [
    | none ↦ (record { code = download_failed; message = codes "cannot read " ++ path }, [])
    | some bytes ↦ (success, digest_of (delivered (reads path) bytes))
  ]
