-- ===== src/BackendStore.antt =====
-- crates/lan-share/src/backend_store.rs: the configured backends, kept in backends.yaml.
pub mod Laws
mod Tests
use aipowergateway.Prelude.{
  Bool, true, false, not, Option, none, some, List, [], ◌∷◌, ◌++◌, map, length, ◌==◌, any, retain,
  find, if◌then◌else◌, unwrap_or,
}
use aipowergateway.Prelude.Text.{Text, text_eq, text_le}
use aipowergateway.Prelude.Sort.{sort_by}
use aipowergateway.Prelude.TextSet.{TextSet, has, add}
use aipowergateway.Backend.{BackendEntry, backend_id}

abbrev pub has_id : Text → BackendEntry → Bool
has_id id e = text_eq (backend_id e) id

-- `file` is the content of backends.yaml, `none` if it cannot be read.
pub record BackendStore : Type 0 where
  pub entries : List BackendEntry
  pub file : Option (List BackendEntry)

-- The loop of `new`: an initial entry is added unless its name is known.
unfoldable pub fill : List BackendEntry → TextSet → List BackendEntry → List BackendEntry
fill [] known loaded = loaded
fill (e ∷ initial) known loaded =
    if has (backend_id e) known
    then fill initial known loaded
    else fill initial (add (backend_id e) known) (loaded ++ e ∷ [])

abbrev pub ids : List BackendEntry → TextSet
ids [] = []
ids (e ∷ es) = add (backend_id e) (ids es)

unfoldable pub new : Option (List BackendEntry) → List BackendEntry → BackendStore
unfolding fill
new file initial =
    let loaded = unwrap_or file [] in
    record { entries = fill initial (ids loaded) loaded; file = file }

unfoldable pub list : BackendStore → List BackendEntry
list s = sort_by (λ a b. text_le (backend_id a) (backend_id b)) s.entries

-- The first entry of that name is replaced where it stands.
unfoldable pub replace : BackendEntry → List BackendEntry → List BackendEntry
replace e [] = e ∷ []
replace e (x ∷ xs) = if has_id (backend_id e) x then e ∷ xs else x ∷ replace e xs

unfoldable pub upsert : BackendEntry → BackendStore → BackendStore
unfolding replace
upsert e s = record s { entries = replace e s.entries }

-- The new store, and whether the length has changed.
unfoldable pub remove : Text → BackendStore → BackendStore × Bool
remove id s =
    let kept = retain (λ x. not (has_id id x)) s.entries in
    (record s { entries = kept }, not (length kept == length s.entries))

-- `write old entries` is what writing yields: whether it succeeds, and the file after it (the old
-- file is removed before the new one is renamed).
unfoldable pub save :
    (Option (List BackendEntry) → List BackendEntry → Bool × Option (List BackendEntry))
    → BackendStore
    → BackendStore × Bool
unfolding list
save write s = let (done, file) = write s.file (list s) in (record s { file = file }, done)
