-- ===== src/BackendStore/Laws.antt =====
-- The store of backends as a map from names to entries.
use aipowergateway.Prelude.{
  ◌≡◌, refl, ◌∙◌, sym, ap, inl, inr, Bool, true, false, not, ◌||◌, Option, none, some, List, [],
  ◌∷◌, ◌++◌, arith, if◌then◌else◌, find, retain, is_some, or_else, unwrap_or, Bool-cases, subst,
}
use aipowergateway.Prelude.Text.{Text, text_eq, text_eq_iff, text_le, text_le_total, text_le_trans}
use aipowergateway.Prelude.Sort.{IsSorted, sort_by-IsSorted}
use aipowergateway.Prelude.TextSet.{TextSet, has, add, has-add}
use aipowergateway.Backend.{BackendEntry, backend_id}
use aipowergateway.BackendStore.{
  has_id, BackendStore, fill, ids, new, list, replace, upsert, remove,
}

-- The entry of a name.
abbrev pub entry : Text → BackendStore → Option BackendEntry
entry id s = find (has_id id) s.entries

find-replace :
    (id : Text) (e : BackendEntry) (es : List BackendEntry)
    → find (has_id id) (replace e es) ≡ (if has_id id e then some e else find (has_id id) es)
unfolding replace
find-replace id e [] = ground arith
find-replace id e (x ∷ xs) = ground (
  arith,
  find-replace id e xs,
  text_eq_iff (backend_id x) (backend_id e),
  text_eq_iff (backend_id x) id,
  text_eq_iff (backend_id e) id,
)

find-retain_other :
    (id j : Text) (es : List BackendEntry)
    → find (has_id j) (retain (λ x. not (has_id id x)) es)
      ≡ (if text_eq id j then none else find (has_id j) es)
find-retain_other id j [] = ground arith
find-retain_other id j (x ∷ xs) = ground (
  arith,
  find-retain_other id j xs,
  text_eq_iff (backend_id x) id,
  text_eq_iff (backend_id x) j,
  text_eq_iff id j,
)

-- After an upsert the store holds the entry under its name and is the same under any other; after a
-- removal it holds nothing under the name and is the same under any other.
pub entry-upsert :
    (e : BackendEntry) (id j : Text) (s : BackendStore)
    → (entry j (upsert e s) ≡ (if text_eq (backend_id e) j then some e else entry j s))
      × (entry j (remove id s).0 ≡ (if text_eq id j then none else entry j s))
unfolding upsert remove
entry-upsert e id j s = (find-replace j e s.entries, find-retain_other id j s.entries)

has-ids : (id : Text) (es : List BackendEntry) → has id (ids es) ≡ is_some (find (has_id id) es)
unfolding has
has-ids id [] = refl
has-ids id (e ∷ es) = ground (arith, has-add (backend_id e) id (ids es), has-ids id es)

find-snoc :
    (id : Text) (e : BackendEntry) (es : List BackendEntry)
    → find (has_id id) (es ++ e ∷ [])
      ≡ or_else (find (has_id id) es) (if has_id id e then some e else none)
find-snoc id e [] = ground arith
find-snoc id e (x ∷ xs) = ground (arith, find-snoc id e xs)

find-fill :
    (id : Text) (initial loaded : List BackendEntry) (known : TextSet)
    → ((j : Text) → has j known ≡ is_some (find (has_id j) loaded))
    → find (has_id id) (fill initial known loaded)
      ≡ or_else (find (has_id id) loaded) (find (has_id id) initial)
unfolding fill
find-fill id [] loaded known h = ground arith
find-fill id (e ∷ initial) loaded known h = elim (Bool-cases (has (backend_id e) known)) [
  | inl there ↦ rw there (
      find-fill id initial loaded known h
      ∙ known_lem (find (has_id id) loaded) _ (has_id id e) (is_known there))
  | inr absent ↦ rw absent (
      find-fill id initial (loaded ++ e ∷ []) (add (backend_id e) known) still
      ∙ ap (λ o. or_else o (find (has_id id) initial)) (find-snoc id e loaded)
      ∙ split_lem (find (has_id id) loaded) _ (has_id id e))
]
  where
    known_lem :
        (o i : Option BackendEntry) (b : Bool)
        → (b ≡ true → is_some o ≡ true)
        → or_else o i ≡ or_else o (if b then some e else i)
    known_lem (some x) i b k = refl
    known_lem none i false k = refl
    known_lem none i true k = let clash = k refl in cc

    split_lem :
        (o i : Option BackendEntry) (b : Bool)
        → or_else (or_else o (if b then some e else none)) i ≡ or_else o (if b then some e else i)
    split_lem (some x) i b = refl
    split_lem none i true = refl
    split_lem none i false = refl

    is_known :
        has (backend_id e) known ≡ true
        → has_id id e ≡ true
        → is_some (find (has_id id) loaded) ≡ true
    is_known there same =
        sym (h id)
        ∙ subst (λ (j : Text). has j known ≡ true) ((text_eq_iff (backend_id e) id).0 same) there

    still :
        (j : Text) → has j (add (backend_id e) known) ≡ is_some (find (has_id j) (loaded ++ e ∷ []))
    still j =
        has-add (backend_id e) j known
        ∙ rw (h j, find-snoc j e loaded) (or_lem (find (has_id j) loaded) (has_id j e))
      where
        or_lem :
            (o : Option BackendEntry) (b : Bool)
            → (b || is_some o) ≡ is_some (or_else o (if b then some e else none))
        or_lem (some x) true = refl
        or_lem (some x) false = refl
        or_lem none true = refl
        or_lem none false = refl

-- The store starts with the entries of the file; an initial entry is found only under a name that
-- the file does not hold, and then it is the first of that name.
entry-new :
    (id : Text) (file : Option (List BackendEntry)) (initial : List BackendEntry)
    → entry id (new file initial)
      ≡ or_else (find (has_id id) (unwrap_or file [])) (find (has_id id) initial)
unfolding new
entry-new id file initial =
    find-fill id initial (unwrap_or file []) (ids (unwrap_or file []))
      (λ j. has-ids j (unwrap_or file []))

-- The list of entries is in the order of their names.
entries-IsSorted :
    (s : BackendStore) → IsSorted (λ a b. text_le (backend_id a) (backend_id b)) (list s)
unfolding list
entries-IsSorted s =
    sort_by-IsSorted (λ a b. text_le (backend_id a) (backend_id b))
      (λ a b. text_le_total (backend_id a) (backend_id b))
      (λ a b c. text_le_trans (backend_id a) (backend_id b) (backend_id c)) _
