-- ===== src/Documents/Deletion.antt =====
-- What a deletion leaves of a document's versions.
use agentsimjs.Prelude.{
  ℕ, suc, ◌≡◌, ◌≢◌, refl, sym, ap, ◌∙◌, Bool, true, false, List, [], ◌∷◌, Option, none, some,
  length, if◌then◌else◌, if_cases,
}
use agentsimjs.Expr.Syntax.{Text}
use agentsimjs.Documents.{
  Entry, Store, versions_of, put, live, last_of, find_version, get_document, stripped, bury,
  tombstone,
}
use agentsimjs.Documents.Versions.{Numbered, versions_of-put, versions_of-put_other}

module _ {D : Type 0} where
  pub bury-Numbered : (k : ℕ) (es : List (Entry D)) → Numbered k es → Numbered k (bury es)
  unfolding bury
  bury-Numbered k [] h = tt
  bury-Numbered k (e ∷ es) (p, h) =
      if_cases (Numbered k) e.deleted (λ _. (p, bury-Numbered (suc k) es h))
        (λ _. (p, bury-Numbered (suc k) es h))

  bury_none : bury {D = D} [] ≡ []
  unfolding bury
  bury_none = refl

  pub length-bury : (es : List (Entry D)) → length (bury es) ≡ length es
  unfolding bury
  length-bury [] = refl
  length-bury (e ∷ es) =
      if_cases (λ (ys : List (Entry D)). length ys ≡ suc (length es)) e.deleted
        (λ _. ap suc (length-bury es)) (λ _. ap suc (length-bury es))

  if_cases_eq :
      (b : Bool) (x y : List (Entry D))
      → (b ≡ true → live x ≡ [])
      → live y ≡ []
      → live (if b then x else y) ≡ []
  if_cases_eq true x y h k = h refl
  if_cases_eq false x y h k = k

  pub live-bury : (es : List (Entry D)) → live (bury es) ≡ []
  unfolding live bury
  live-bury [] = refl
  live-bury (e ∷ es) =
      if_cases_eq e.deleted (e ∷ bury es) (record e { deleted = true; document = none } ∷ bury es)
        (λ q. ap (λ b. if b then live (bury es) else e ∷ live (bury es)) q ∙ live-bury es)
        (live-bury es)

  tombstone-none : (m : Store D) (id : Text) → versions_of m id ≡ [] → tombstone m id ≡ (0, m)
  unfolding tombstone
  tombstone-none m id e = rw (e, tombstone) refl

  tombstone-some :
      (m : Store D) (id : Text) (e : Entry D) (es : List (Entry D))
      → versions_of m id ≡ e ∷ es
      → (tombstone m id).1 ≡ put m id (bury (e ∷ es))
  unfolding tombstone
  tombstone-some m id e es q = rw (q, tombstone) (ap (λ ys. put m id (bury ys)) q)

  -- What a deletion leaves: the id's versions as tombstones, and the others as they were.
  pub tombstone-versions_of :
      (m : Store D) (id : Text)
      → (versions_of (tombstone m id).1 id ≡ bury (versions_of m id))
        × ((other : Text) → id ≢ other → versions_of (tombstone m id).1 other ≡ versions_of m other)
  tombstone-versions_of m id = by_versions (versions_of m id) refl
    where
      by_versions :
          (es : List (Entry D))
          → versions_of m id ≡ es
          → (versions_of (tombstone m id).1 id ≡ bury (versions_of m id))
            × ((other : Text)
                → id ≢ other
                → versions_of (tombstone m id).1 other ≡ versions_of m other)
      by_versions [] e =
          let t : (tombstone m id).1 ≡ m = ap (λ (r : ℕ × Store D). r.1) (tombstone-none m id e) in
          (
            ap (λ n. versions_of n id) t ∙ e ∙ sym bury_none ∙ ap bury (sym e),
            λ other _. ap (λ n. versions_of n other) t,
          )
      by_versions (x ∷ xs) e =
          let t = tombstone-some m id x xs e ∙ ap (λ ys. put m id (bury ys)) (sym e) in
          (
            ap (λ n. versions_of n id) t ∙ versions_of-put m id (bury (versions_of m id)),
            λ other h.
                ap (λ n. versions_of n other) t
                ∙ versions_of-put_other m id other (bury (versions_of m id)) h,
          )

  -- After a deletion an id gives no document, neither the latest nor any version, and what every
  -- other id gives is as before.
  pub get_document-tombstone :
      (m : Store D) (id : Text) (v : Option ℕ)
      → (get_document (tombstone m id).1 id v ≡ none)
        × ((other : Text)
            → id ≢ other
            → get_document (tombstone m id).1 other v ≡ get_document m other v)
  unfolding get_document stripped last_of find_version
  get_document-tombstone m id none =
      let (same, others) = tombstone-versions_of m id in
      (
        ap (λ ys. stripped (last_of (live ys))) same
            ∙ ap (λ ys. stripped (last_of ys)) (live-bury (versions_of m id)),
        λ other h. ap (λ ys. stripped (last_of (live ys))) (others other h),
      )
  get_document-tombstone m id (some v) =
      let (same, others) = tombstone-versions_of m id in
      (
        ap (λ ys. stripped (find_version (live ys) v)) same
            ∙ ap (λ ys. stripped (find_version ys v)) (live-bury (versions_of m id)),
        λ other h. ap (λ ys. stripped (find_version (live ys) v)) (others other h),
      )
