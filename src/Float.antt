-- ===== src/Float.antt =====
-- What the library uses of `float`: the type and its operations, with no law assumed.
use cyborgdb_embed.Prelude.{Bool, if◌then◌else◌}

pub record Float : Type 1 where
  pub F : Type 0
  pub zero : F
  pub one : F
  -- -std::numeric_limits<float>::infinity()
  pub neg_inf : F
  -- 1e-12f
  pub tiny : F
  pub add : F → F → F
  pub mul : F → F → F
  pub div : F → F → F
  pub sqrt : F → F
  pub ltb : F → F → Bool
  pub leb : F → F → Bool

-- std::max(a, b) is (a < b) ? b : a.
abbrev pub float_max : (fl : Float) → fl.F → fl.F → fl.F
float_max fl a b = if fl.ltb a b then b else a
