-- ===== src/Process/Keys.antt =====
-- src/session_store.cpp, the key of `acquire`: a session tells the key that it was made for.
use cyborgdb_embed.Prelude.{◌≡◌, sym, ap, ◌∙◌}
use cyborgdb_embed.Float.{Float}
use cyborgdb_embed.Registry.{RegistryEntry}
use cyborgdb_embed.Registry.Table.{all_mini_lm_l6_v2_entry}
use cyborgdb_embed.Registry.Lookup.Entries.{find_every}
use cyborgdb_embed.Tokenizer.Shim.{Library}
use cyborgdb_embed.Session.{Session}
use cyborgdb_embed.Store.{Key}
use cyborgdb_embed.Store.Changes.{some_injective}
use cyborgdb_embed.Process.Quiet.{Fits}

module _ (fl : Float) (lib : Library) where
  -- The key that a session was made for.
  abbrev pub session_key : Session fl lib → Key
  session_key s = record { model = s.entry.info.id; provider = s.provider; precision = s.precision }

  pub Fits-key : (key : Key) (s : Session fl lib) → Fits fl lib key s → session_key s ≡ key
  Fits-key key s fits =
      let (entry, found, its_id, _, _, _, _) =
        find_every key.model all_mini_lm_l6_v2_entry all_mini_lm_l6_v2_entry.info in
      let same : s.entry ≡ entry = some_injective (sym fits.same_entry ∙ found) in
      let model = ap (λ (x : RegistryEntry). x.info.id) same ∙ its_id in
      λ i. record {
        model = model i;
        provider = fits.same_provider i;
        precision = fits.same_precision i;
      }
