-- ===== src/Registry/Lookup.antt =====
-- src/embed.cpp: `find`, `info`, `find_model` and what they call. Texts are bytes; `std::tolower` is
-- that of the "C" locale.
pub mod Names
pub mod Entries
pub mod RoundTrip
mod Examples
use cyborgdb_embed.Prelude.{
  ℕ, suc, ◌+◌, Bool, true, false, not, ◌&&◌, ◌||◌, List, [], ◌∷◌, ◌++◌, Option, none, some, ltb,
  leb, ◌==◌, if◌then◌else◌, Text, codes, length, take,
}
use cyborgdb_embed.Status.{Status, success, invalid_argument}
use cyborgdb_embed.Registry.{ModelId, ModelInfo, RegistryEntry, rank}
use cyborgdb_embed.Registry.Table.{registry, models, all_mini_lm_l6_v2_entry}

-- `find`, over the entries that are left.
unfoldable pub find_in : List RegistryEntry → ModelId → Option RegistryEntry
find_in [] id = none
find_in (entry ∷ entries) id =
    if rank entry.info.id == rank id then some entry else find_in entries id

unfoldable pub find : ModelId → Option RegistryEntry
unfolding find_in registry
find id = find_in registry id

-- `info`: the entry's, or else the first of `kModels`.
unfoldable pub info : ModelId → ModelInfo
unfolding find
info id = elim (find id) [ some entry ↦ entry.info | none ↦ all_mini_lm_l6_v2_entry.info ]

unfoldable pub to_lower : ℕ → ℕ
to_lower c = if leb b'A' c && leb c b'Z' then c + 32 else c

-- `std::equal` with the comparison by lower case.
unfoldable pub equal_lower : Text → Text → Bool
unfolding to_lower
equal_lower [] b = true
equal_lower (x ∷ a) [] = false
equal_lower (x ∷ a) (y ∷ b) = to_lower x == to_lower y && equal_lower a b

unfoldable pub equals_ignoring_case : Text → Text → Bool
unfolding equal_lower
equals_ignoring_case a b = length a == length b && equal_lower a b

-- `name.substr(name.rfind('/') + 1)`: what follows the last slash seen so far.
unfoldable pub bare_from : Text → Text → Text
bare_from best [] = best
bare_from best (c ∷ s) = bare_from (if c == b'/' then s else best) s

abbrev pub third_generation : Text
third_generation = codes "text-embedding-3-"

unfoldable pub is_hosted_model : Text → Bool
unfolding bare_from equals_ignoring_case
is_hosted_model name =
    let bare = bare_from name name in
    equals_ignoring_case bare (codes "text-embedding-ada-002")
    || (ltb (length third_generation) (length bare)
        && equals_ignoring_case (take (length third_generation) bare) third_generation)

-- `name.find('/') != npos`.
unfoldable pub has_slash : Text → Bool
has_slash [] = false
has_slash (c ∷ s) = c == b'/' || has_slash s

unfoldable pub is_empty : Text → Bool
is_empty [] = true
is_empty (c ∷ s) = false

-- `wanted`: the name, qualified where it has no slash.
unfoldable pub wanted_name : Text → Text
unfolding has_slash is_empty
wanted_name name =
    let qualified = if has_slash name then codes "" else codes "sentence-transformers/" ++ name in
    if is_empty qualified then name else qualified

-- The first loop of `find_model`.
unfoldable pub find_name : List RegistryEntry → Text → Option ModelId
unfolding equals_ignoring_case
find_name [] wanted = none
find_name (entry ∷ entries) wanted =
    if equals_ignoring_case entry.info.name wanted
    then some entry.info.id
    else find_name entries wanted

-- The second loop: the names, with commas between them.
unfoldable pub supported_names : List RegistryEntry → Text → Text
unfolding is_empty
supported_names [] supported = supported
supported_names (entry ∷ entries) supported =
    supported_names entries
      ((if is_empty supported then supported else supported ++ codes ", ") ++ entry.info.name)

-- `find_model`: the status, and `out` afterwards.
unfoldable pub find_model : Text → ModelId → Status × ModelId
unfolding wanted_name find_name is_hosted_model supported_names registry
find_model name out = elim (find_name registry (wanted_name name)) [
  | some id ↦ (success, id)
  | none ↦ (
    record {
      code = invalid_argument;
      message =
          name
          ++ ((if is_hosted_model name
                then codes " is a hosted API model, not supported"
                else codes " is not a supported model")
              ++ (codes "; supported: " ++ supported_names registry (codes "")));
    },
    out,
  )
]
