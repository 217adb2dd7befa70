-- ===== src/Resolve/Paths.antt =====
-- src/resolve.cpp, `cached_graph_path`: where the graphs of the models lie below the cache directory.
use mathlib.Core.List.{append_assoc}
use cyborgdb_embed.Prelude.{
  ℕ, ◌≡◌, ◌≢◌, refl, sym, ap, ◌∙◌, inl, inr, true, false, List, [], ◌∷◌, ◌++◌, Option, none, some,
  if◌then◌else◌, Bool-cases, Text, codes, text_eq,
}
use cyborgdb_embed.Config.{CacheConfig}
use cyborgdb_embed.Registry.{
  ModelId, RegistryEntry, all_mini_lm_l6_v2, all_mini_lm_l12_v2, all_mpnet_base_v2,
  bge_small_en_v15, bge_base_en_v15, bge_large_en_v15, e5_small_v2, e5_base_v2, e5_large_v2,
  multilingual_e5_small, paraphrase_mini_lm_l6_v2, paraphrase_multilingual_mini_lm_l12_v2,
  paraphrase_multilingual_mpnet_base_v2, multi_qa_mini_lm_l6_cos_v1, multilingual_e5_base,
  mxbai_embed_large_v1, snowflake_arctic_embed_mv15, rank,
}
use cyborgdb_embed.Registry.Table.{registry}
use cyborgdb_embed.Registry.Lookup.{find, find_in, bare_from}
use cyborgdb_embed.Resolve.{
  Variables, flatten, resolved_config, is_absolute, has_filename, join, model_dir,
  cached_graph_path,
}

-- The directory as what stands before a name in it.
abbrev root : Text → Text
root dir = if has_filename dir then dir ++ codes "/" else dir

-- The path of the graph below the cache directory.
unfoldable pub below_cache : RegistryEntry → Text
unfolding flatten bare_from
below_cache entry =
    flatten entry.info.name
    ++ (codes "/"
        ++ (entry.info.revision ++ (codes "/" ++ bare_from entry.onnx_path entry.onnx_path)))

-- The model whose graph a path below the cache directory is of.
unfoldable pub owner_in : List RegistryEntry → Text → Option ModelId
unfolding below_cache
owner_in [] path = none
owner_in (entry ∷ entries) path =
    if text_eq (below_cache entry) path then some entry.info.id else owner_in entries path

-- The parts of the path are names of files.
pub record IsPlaced (entry : RegistryEntry) : Type 0 where
  pub name : is_absolute (flatten entry.info.name) ≡ false
  pub revision : is_absolute entry.info.revision ≡ false
  pub file : is_absolute (bare_from entry.onnx_path entry.onnx_path) ≡ false
  pub name_end : has_filename (flatten entry.info.name) ≡ true
  pub revision_end : has_filename entry.info.revision ≡ true

true-false : true ≡ false → ⊥
true-false e = cc

has_filename-append : (a b : Text) → has_filename b ≡ true → has_filename (a ++ b) ≡ true
unfolding has_filename
has_filename-append [] b h = h
has_filename-append (c ∷ []) [] h = absurd (true-false (sym h))
has_filename-append (c ∷ []) (x ∷ b) h = h
has_filename-append (c ∷ d ∷ a) b h = has_filename-append (d ∷ a) b h

join_name :
    (a b : Text) → is_absolute b ≡ false → has_filename a ≡ true → join a b ≡ a ++ (codes "/" ++ b)
unfolding join
join_name a b relative named = rw (join, relative, named) refl

join-root : (dir b : Text) → is_absolute b ≡ false → join dir b ≡ root dir ++ b
unfolding join
join-root dir b relative = elim (Bool-cases (has_filename dir)) [
  | inl named ↦ rw (join, relative, named) (sym (append_assoc dir (codes "/") b))
  | inr whole ↦ rw (join, relative, whole) refl
]

cons_injective : {c d : ℕ} {s t : Text} → c ∷ s ≡ d ∷ t → s ≡ t
cons_injective e = cc

cancel : (p s t : Text) → p ++ s ≡ p ++ t → s ≡ t
cancel [] s t e = e
cancel (c ∷ p) s t e = cancel p s t (cons_injective e)

-- The whole path is that of the directory, and the path below it.
path_below :
    (vars : Variables) (entry : RegistryEntry) (config : CacheConfig)
    → IsPlaced entry
    → cached_graph_path vars entry config
      ≡ root (resolved_config vars config).cache_dir ++ below_cache entry
unfolding cached_graph_path model_dir below_cache
path_below vars entry config is =
    let dir = (resolved_config vars config).cache_dir in
    let name = flatten entry.info.name in
    let revision = entry.info.revision in
    let file = bare_from entry.onnx_path entry.onnx_path in
    let first : join dir name ≡ root dir ++ name = join-root dir name is.name in
    let second : join (join dir name) revision ≡ root dir ++ (name ++ (codes "/" ++ revision)) =
      ap (λ d. join d revision) first
      ∙ join_name (root dir ++ name) revision is.revision
          (has_filename-append (root dir) name is.name_end)
      ∙ append_assoc (root dir) name (codes "/" ++ revision) in
    ap (λ d. join d file) second
    ∙ join_name (root dir ++ (name ++ (codes "/" ++ revision))) file is.file (
        has_filename-append (root dir) (name ++ (codes "/" ++ revision)) (
          has_filename-append name (codes "/" ++ revision)
            (has_filename-append (codes "/") revision is.revision_end)))
    ∙ append_assoc (root dir) (name ++ (codes "/" ++ revision)) (codes "/" ++ file)
    ∙ ap (λ s. root dir ++ s)
        (append_assoc name (codes "/" ++ revision) (codes "/" ++ file)
          ∙ ap (λ s. name ++ s) (append_assoc (codes "/") revision (codes "/" ++ file)))

placed :
    (m : ModelId)
    → (entry : RegistryEntry) × (find m ≡ some entry)
      × IsPlaced entry
      × (owner_in registry (below_cache entry) ≡ some m)
unfolding find find_in registry rank owner_in below_cache flatten has_filename bare_from
placed all_mini_lm_l6_v2 = (
  _,
  refl,
  record { name = refl; revision = refl; file = refl; name_end = refl; revision_end = refl },
  refl,
)
placed all_mini_lm_l12_v2 = (
  _,
  refl,
  record { name = refl; revision = refl; file = refl; name_end = refl; revision_end = refl },
  refl,
)
placed all_mpnet_base_v2 = (
  _,
  refl,
  record { name = refl; revision = refl; file = refl; name_end = refl; revision_end = refl },
  refl,
)
placed bge_small_en_v15 = (
  _,
  refl,
  record { name = refl; revision = refl; file = refl; name_end = refl; revision_end = refl },
  refl,
)
placed bge_base_en_v15 = (
  _,
  refl,
  record { name = refl; revision = refl; file = refl; name_end = refl; revision_end = refl },
  refl,
)
placed bge_large_en_v15 = (
  _,
  refl,
  record { name = refl; revision = refl; file = refl; name_end = refl; revision_end = refl },
  refl,
)
placed e5_small_v2 = (
  _,
  refl,
  record { name = refl; revision = refl; file = refl; name_end = refl; revision_end = refl },
  refl,
)
placed e5_base_v2 = (
  _,
  refl,
  record { name = refl; revision = refl; file = refl; name_end = refl; revision_end = refl },
  refl,
)
placed e5_large_v2 = (
  _,
  refl,
  record { name = refl; revision = refl; file = refl; name_end = refl; revision_end = refl },
  refl,
)
placed multilingual_e5_small = (
  _,
  refl,
  record { name = refl; revision = refl; file = refl; name_end = refl; revision_end = refl },
  refl,
)
placed paraphrase_mini_lm_l6_v2 = (
  _,
  refl,
  record { name = refl; revision = refl; file = refl; name_end = refl; revision_end = refl },
  refl,
)
placed paraphrase_multilingual_mini_lm_l12_v2 = (
  _,
  refl,
  record { name = refl; revision = refl; file = refl; name_end = refl; revision_end = refl },
  refl,
)
placed paraphrase_multilingual_mpnet_base_v2 = (
  _,
  refl,
  record { name = refl; revision = refl; file = refl; name_end = refl; revision_end = refl },
  refl,
)
placed multi_qa_mini_lm_l6_cos_v1 = (
  _,
  refl,
  record { name = refl; revision = refl; file = refl; name_end = refl; revision_end = refl },
  refl,
)
placed multilingual_e5_base = (
  _,
  refl,
  record { name = refl; revision = refl; file = refl; name_end = refl; revision_end = refl },
  refl,
)
placed mxbai_embed_large_v1 = (
  _,
  refl,
  record { name = refl; revision = refl; file = refl; name_end = refl; revision_end = refl },
  refl,
)
placed snowflake_arctic_embed_mv15 = (
  _,
  refl,
  record { name = refl; revision = refl; file = refl; name_end = refl; revision_end = refl },
  refl,
)

same_entry : {A : Type 0} {a b : A} → ◌≡◌ {A = Option A} (some a) (some b) → a ≡ b
same_entry e = cc

-- A path is the graph of at most one model.
one_owner :
    (vars : Variables) (config : CacheConfig) (m n : ModelId) (e f : RegistryEntry)
    → find m ≡ some e
    → find n ≡ some f
    → cached_graph_path vars e config ≡ cached_graph_path vars f config
    → m ≡ n
one_owner vars config m n e f found other same =
    let (e', e_found, e_placed, e_owner) = placed m in
    let (f', f_found, f_placed, f_owner) = placed n in
    let e_is : e' ≡ e = same_entry (sym e_found ∙ found) in
    let f_is : f' ≡ f = same_entry (sym f_found ∙ other) in
    let paths : cached_graph_path vars e' config ≡ cached_graph_path vars f' config =
      ap (λ x. cached_graph_path vars x config) e_is
      ∙ same
      ∙ ap (λ x. cached_graph_path vars x config) (sym f_is) in
    let below =
      cancel (root (resolved_config vars config).cache_dir) (below_cache e') (below_cache f')
        (sym (path_below vars e' config e_placed) ∙ paths ∙ path_below vars f' config f_placed) in
    same_entry (sym e_owner ∙ ap (owner_in registry) below ∙ f_owner)

-- Whatever the configuration and the environment, the graphs of two different models have different
-- paths in the cache.
pub cached_graph_path_distinct :
    (vars : Variables) (config : CacheConfig) (m n : ModelId) (e f : RegistryEntry)
    → m ≢ n
    → find m ≡ some e
    → find n ≡ some f
    → cached_graph_path vars e config ≢ cached_graph_path vars f config
cached_graph_path_distinct vars config m n e f apart found other same =
    apart (one_owner vars config m n e f found other same)
