-- ===== src/Documents.antt =====
-- packages/storage/src/adapters/memory.ts, `versionedDocs`: the versions of documents by id, deleted
-- ones kept as tombstones. A document is abstract; its text is parsed before it comes here.
mod Versions
pub mod Deletion
pub mod History
mod Tests
use agentsimjs.Prelude.{
  ℕ, zero, suc, ◌+◌, Bool, true, false, not, List, [], ◌∷◌, ◌++◌, Option, none, some, ◌==◌, length,
  if◌then◌else◌,
}
use agentsimjs.Expr.Syntax.{Text, text_eq}

pub record Entry (D : Type 0) : Type 0 where
  pub id : Text
  pub version : ℕ
  pub name : Text
  -- none in a tombstone
  pub document : Option D
  pub content_hash : Text
  pub created_at : ℕ
  pub deleted : Bool

-- What a reader gets: an entry without its mark.
pub record StoredDocument (D : Type 0) : Type 0 where
  pub id : Text
  pub version : ℕ
  pub name : Text
  pub document : Option D
  pub content_hash : Text
  pub created_at : ℕ

-- `byId`, in the order of the first insertions
abbrev pub Store : Type 0 → Type 0
Store D = List (Text × List (Entry D))

module _ {D : Type 0} where
  -- `byId.get(id) ?? []`
  unfoldable pub versions_of : Store D → Text → List (Entry D)
  versions_of [] id = []
  versions_of ((k, es) ∷ m) id = let rest = versions_of m id in if text_eq k id then es else rest

  -- `byId.set`
  unfoldable pub put : Store D → Text → List (Entry D) → Store D
  put [] id es = (id, es) ∷ []
  put ((k, old) ∷ m) id es =
      let rest = put m id es in if text_eq k id then (k, es) ∷ m else (k, old) ∷ rest

  unfoldable pub live : List (Entry D) → List (Entry D)
  live [] = []
  live (e ∷ es) = let rest = live es in if e.deleted then rest else e ∷ rest

  unfoldable pub last_of : List (Entry D) → Option (Entry D)
  last_of [] = none
  last_of (e ∷ []) = some e
  last_of (e ∷ f ∷ es) = last_of (f ∷ es)

  unfoldable pub find_version : List (Entry D) → ℕ → Option (Entry D)
  find_version [] v = none
  find_version (e ∷ es) v = let rest = find_version es v in if e.version == v then some e else rest

  -- `{ deleted, ...rest }`
  unfoldable pub rest_of : Entry D → StoredDocument D
  rest_of e = record {
    id = e.id;
    version = e.version;
    name = e.name;
    document = e.document;
    content_hash = e.content_hash;
    created_at = e.created_at;
  }

  unfoldable pub stripped : Option (Entry D) → Option (StoredDocument D)
  unfolding rest_of
  stripped none = none
  stripped (some e) = some (rest_of e)

  unfoldable pub get_document : Store D → Text → Option ℕ → Option (StoredDocument D)
  unfolding versions_of live last_of find_version stripped
  get_document m id none = stripped (last_of (live (versions_of m id)))
  get_document m id (some v) = stripped (find_version (live (versions_of m id)) v)

  unfoldable pub next_version : List (Entry D) → ℕ
  unfolding last_of
  next_version es = elim (last_of es) [ none ↦ 1 | some e ↦ e.version + 1 ]

  unfoldable pub insert_document : Store D → Text → Text → D → Text → ℕ → ℕ × Store D
  unfolding versions_of put next_version
  insert_document m id name d hash now =
      let v = next_version (versions_of m id) in
      (
        v,
        put m id (
            versions_of m id
            ++ record {
              id = id;
              version = v;
              name = name;
              document = some d;
              content_hash = hash;
              created_at = now;
              deleted = false;
            }
              ∷ []),
      )

  unfoldable pub bury : List (Entry D) → List (Entry D)
  bury [] = []
  bury (e ∷ es) =
      let rest = bury es in
      if e.deleted then e ∷ rest else record e { deleted = true; document = none } ∷ rest

  -- An id that was never saved has no versions to mark.
  unfoldable pub tombstone : Store D → Text → ℕ × Store D
  unfolding versions_of live bury put
  tombstone m id = elim (versions_of m id) [
    | [] ↦ (0, m)
    | e ∷ es ↦ (length (live (versions_of m id)), put m id (bury (versions_of m id)))
  ]
