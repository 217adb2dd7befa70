-- ===== src/Onnx/Examples.antt =====
-- src/ort_api.cpp where ONNX Runtime has no table of the version, and is asked again.
use cyborgdb_embed.Prelude.{◌≡◌, some, false, true, codes}
use cyborgdb_embed.Onnx.{OrtApiBase, no_table, init_ort, init_ort_settled}

abbrev older : OrtApiBase
older = record { get_api = λ version. false; get_version_string = codes "1.16.0" }

abbrev newer : OrtApiBase
newer = record { get_api = λ version. true; get_version_string = codes "1.22.0" }

init_ort_settled_example :
    init_ort (some newer) (init_ort (some older) no_table).1 ≡ init_ort (some older) no_table
init_ort_settled_example = init_ort_settled (some older) (some newer) no_table
