-- ===== src/Runtime/Error.antt =====
-- crates/runtime/src/error.rs
use aipowergateway.Prelude.{◌++◌}
use aipowergateway.Prelude.Text.{Text, text}

pub data RuntimeError : Type 0 where
  duplicate_module missing_module dependency_cycle module_error config_error role_error auth other :
      Text → RuntimeError

-- `Display`
unfoldable pub display : RuntimeError → Text
display (duplicate_module m) = text "duplicate module: " ++ m
display (missing_module m) = text "missing required module: " ++ m
display (dependency_cycle d) = text "dependency cycle: " ++ d
display (module_error e) = text "module error: " ++ e
display (config_error e) = text "config error: " ++ e
display (role_error e) = text "role error: " ++ e
display (auth e) = text "auth: " ++ e
display (other e) = e
