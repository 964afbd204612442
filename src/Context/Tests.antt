-- ===== src/Context/Tests.antt =====
-- Runs of the context functions, and the theorems at them.
use libpolycall_v.Prelude.{refl, none, some, true, false, replicate, ◌≡◌}
use libpolycall_v.Context.{error_out_of_memory, Config, Context, init_with_config, max_error_length}

abbrev some_config : Config
some_config = record { flags = 3; memory_pool_size = 4096; user_data = 12 }

abbrev started : Context
started = record {
  last_error = replicate max_error_length 0;
  user_data = 12;
  memory_pool_size = 4096;
  flags = 3;
  is_initialized = true;
}

out_of_memory : init_with_config true (some some_config) false ≡ (none, error_out_of_memory)
unfolding init_with_config
out_of_memory = refl
