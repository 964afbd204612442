-- ===== src/Context.antt =====
-- The library context of src/polycall.c and include/polycall.h.
mod Tests
use libpolycall_v.Prelude.{
  refl, none, some, true, false, [], ℕ, Bool, Option, List, store_name, replicate, if◌then◌else◌,
  codes, IsText, text_of, ◌-◌, ◌*◌, ltb, not, ◌≡◌, set, take, ◌<◌, ap, arith, text_of-store_name,
}
use mathlib.Core.Option

abbrev pub max_error_length : ℕ
max_error_length = 256

pub data PolycallStatus : Type 0 where
  success error_invalid_parameters error_initialization_failed error_out_of_memory error :
      PolycallStatus

-- `user_data` is an opaque pointer, by its address.
pub record Config : Type 0 where
  pub flags : ℕ
  pub memory_pool_size : ℕ
  pub user_data : ℕ

-- The `polycall_config_t config = {0}` of a caller that has no wishes.
abbrev pub zero_config : Config
zero_config = record { flags = 0; memory_pool_size = 0; user_data = 0 }

pub record Context : Type 0 where
  pub last_error : List ℕ
  pub user_data : ℕ
  pub memory_pool_size : ℕ
  pub flags : ℕ
  pub is_initialized : Bool

-- `set_error` on a context or NULL.
unfoldable pub set_error : Option Context → Option (List ℕ) → Option Context
set_error none message = none
set_error (some ctx) none = some ctx
set_error (some ctx) (some message) =
    some (record ctx { last_error = store_name (max_error_length - 1) message })

zeroed_context : Context
zeroed_context = record {
  last_error = replicate max_error_length 0;
  user_data = 0;
  memory_pool_size = 1024 * 1024;
  flags = 0;
  is_initialized = false;
}

configured : Option Config → Context → Context
configured none ctx = ctx
configured (some config) ctx = record ctx {
  flags = config.flags;
  memory_pool_size =
      if ltb 0 config.memory_pool_size then config.memory_pool_size else ctx.memory_pool_size;
  user_data = config.user_data;
}

-- `has_out` says whether the out pointer is there, `allocated` whether `malloc` succeeds. The
-- context that `*ctx` receives is the first component.
unfoldable pub init_with_config : Bool → Option Config → Bool → Option Context × PolycallStatus
unfolding zeroed_context configured
init_with_config has_out config allocated =
    if not has_out
    then (none, error_invalid_parameters)
    else if not allocated
    then (none, error_out_of_memory)
    else let ctx = configured config zeroed_context in
      (some (record ctx { is_initialized = true; last_error = set ctx.last_error 0 0 }), success)

-- The text `"Invalid context"`.
abbrev pub invalid_context_text : List ℕ
invalid_context_text = codes "Invalid context"

unfoldable pub get_last_error : Option Context → List ℕ
get_last_error none = invalid_context_text
get_last_error (some ctx) = ctx.last_error

-- An error message reads back as its first 255 bytes.
pub get_last_error-set_error :
    (ctx : Context) (message : List ℕ)
    → IsText message
    → Option.map (λ c. text_of (get_last_error (some c))) (set_error (some ctx) (some message))
      ≡ some (take (max_error_length - 1) message)
unfolding set_error get_last_error
get_last_error-set_error ctx message t = ap some (text_of-store_name 255 message t)

-- A context that was created has an empty error text, and a pool of the size that was asked
-- for, or one that is not empty when none was.
pub init_with_config_lem :
    (config : Option Config)
    → (ctx : Context) × (init_with_config true config true ≡ (some ctx, success))
      × (text_of ctx.last_error ≡ [])
      × (0 < ctx.memory_pool_size)
      × ((c : Config)
          → config ≡ some c
          → 0 < c.memory_pool_size
          → ctx.memory_pool_size ≡ c.memory_pool_size)
unfolding init_with_config text_of
init_with_config_lem none = (_, refl, refl, omega arith, λ c e. cc)
init_with_config_lem (some c) = (_, refl, refl, ground arith, λ d e h. ground arith)

-- `polycall_get_version`.
abbrev pub get_version : List ℕ
get_version = codes "1.0.1"

-- `polycall_cleanup`: nothing is left of the context.
abbrev pub cleanup : Option Context → Option Context
cleanup ctx = none
