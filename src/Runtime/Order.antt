-- ===== src/Runtime/Order.antt =====
-- crates/runtime/src/runtime.rs, `topo_sort`: a depth-first search that puts each module behind the
-- modules that it requires. The recursion of `visit` takes fuel, one more than there are wanted
-- modules.
mod Steps
pub mod Sorted
pub mod Cycles
use aipowergateway.Prelude.{
  ℕ, zero, suc, Bool, true, false, Option, none, some, List, [], ◌∷◌, ◌++◌, if◌then◌else◌, retain,
  unwrap_or, length, Result, ok, err,
}
use aipowergateway.Prelude.Text.{Text, text}
use aipowergateway.Prelude.TextSet.{TextSet, has, add, delete}
use aipowergateway.Runtime.Error.{RuntimeError, dependency_cycle}

-- `panicked` is the `unwrap` of a module that is not registered.
pub data Failure : Type 0 where
  failed : RuntimeError → Failure
  panicked out_of_fuel : Failure

pub record Dfs : Type 0 where
  pub visited : TextSet
  pub visiting : TextSet
  pub order : List Text

-- A loop that stops at the first error.
unfoldable pub each : (Text → Dfs → Result Dfs Failure) → List Text → Dfs → Result Dfs Failure
each f [] d = ok d
each f (n ∷ ns) d = elim (f n d) [ err e ↦ err e | ok d' ↦ each f ns d' ]

-- The start and the end of a visit.
abbrev pub opened : Text → Dfs → Dfs
opened name d = record d { visiting = add name d.visiting }

abbrev pub closed : Text → Dfs → Dfs
closed name d = record {
  visited = add name d.visited;
  visiting = delete name d.visiting;
  order = d.order ++ name ∷ [];
}

-- `requires` is `registry.get(name)`, and then the modules that it requires.
module _ (requires : Text → Option (List Text)) (want : List Text) where
  -- The requirements that are wanted; others are passed over.
  abbrev pub deps : Text → List Text
  deps name = retain (λ x. has x want) (unwrap_or (requires name) [])

  unfoldable pub visit : ℕ → Text → Dfs → Result Dfs Failure
  unfolding has each
  visit zero name d = err out_of_fuel
  visit (suc fuel) name d =
      if has name d.visited
      then ok d
      else if has name d.visiting
      then err (failed (dependency_cycle (text "cycle at " ++ name)))
      else elim (requires name) [
        | none ↦ err panicked
        | some _ ↦ elim (each (visit fuel) (deps name) (opened name d)) [
          | err e ↦ err e
          | ok d' ↦ ok (closed name d')
        ]
      ]

  unfoldable pub topo_sort : Result (List Text) Failure
  unfolding visit
  topo_sort =
      elim (each (visit (suc (length want))) want
        (record { visited = []; visiting = []; order = [] })) [ err e ↦ err e | ok d ↦ ok d.order ]
