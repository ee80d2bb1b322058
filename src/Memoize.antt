-- ===== src/Memoize.antt =====
-- src/ut_components/memoize.py: results of a function, kept in the store for some time.
pub mod Laws
use greenline.Base.{ℕ, Bool, true, false, Option, none, some, Text, codes, ◌++◌, if◌then◌else◌}
use greenline.Kv.{Json, Kv, put, get_value, delete_partial}

-- SHA-1 and `json.dumps` with sorted keys, and which value is `None`.
pub record Hashing (J : Json) : Type 1 where
  pub sha1 : Text → Text
  pub Arguments : Type 0
  pub dumps_args : Arguments → Text
  pub dumps_kwargs : Arguments → Text
  pub is_none : J.Value → Bool

-- The function that is decorated: its module and its name, and what it returns; `none` is an exception.
pub record Function (J : Json) (H : Hashing J) : Type 0 where
  pub module_name : Text
  pub name : Text
  pub apply : H.Arguments → Option J.Value

module _ (J : Json) (H : Hashing J) where
  unfoldable pub hash_function_name : Function J H → Text
  hash_function_name f = H.sha1 (f.module_name ++ (codes "." ++ f.name))

  unfoldable pub hash_function_args : H.Arguments → Text
  hash_function_args args = H.sha1 (H.dumps_args args ++ (codes "-" ++ H.dumps_kwargs args))

  unfoldable pub memoize_key : Function J H → H.Arguments → Text
  memoize_key f args =
      codes "memoize." ++ (hash_function_name f ++ (codes "." ++ hash_function_args args))

  -- What a call gives: its result, whether the function was called, and the store.
  abbrev pub Called : Type 0
  Called = record { result : Option J.Value; called : Bool; kv : Kv }

  kept : ℕ → ℕ → Text → Option J.Value → Kv → Called
  kept done ttl_seconds key none kv = record { result = none; called = true; kv = kv }
  kept done ttl_seconds key (some v) kv = record {
    result = some v;
    called = true;
    kv = put J done key v (some ttl_seconds) kv;
  }

  answered : ℕ → ℕ → Function J H → H.Arguments → Option J.Value → Kv → Called
  unfolding kept
  answered done ttl_seconds f args none kv =
      kept done ttl_seconds (memoize_key f args) (f.apply args) kv
  answered done ttl_seconds f args (some v) kv =
      if H.is_none v
      then kept done ttl_seconds (memoize_key f args) (f.apply args) kv
      else record { result = some v; called = false; kv = kv }

  -- `wrapper`: a call at one time, whose function returns at another.
  unfoldable pub memoized : ℕ → Function J H → ℕ → ℕ → H.Arguments → Kv → Called
  unfolding answered
  memoized ttl_seconds f now done args kv =
      answered done ttl_seconds f args (get_value J now (memoize_key f args) kv) kv

  unfoldable pub delete_memoized : Function J H → Kv → Kv
  delete_memoized f kv = delete_partial (codes "memoize." ++ hash_function_name f) kv

unfoldable pub delete_all_memoized : Kv → Kv
delete_all_memoized kv = delete_partial (codes "memoize") kv
