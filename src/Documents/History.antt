-- ===== src/Documents/History.antt =====
-- The versions of a document over saves and deletions.
use agentsimjs.Prelude.{
  ℕ, suc, ◌+◌, ◌≡◌, ◌≢◌, refl, sym, ap, ◌∙◌, subst, true, false, List, [], ◌∷◌, ◌++◌, none, some,
  length, length-append, if◌then◌else◌, inl, inr, Bool-cases, arith,
}
use agentsimjs.Expr.Syntax.{Text, text_eq}
use agentsimjs.Expr.TextEquality.{text_eq_sound, text_eq_refl}
use agentsimjs.Documents.{
  Entry, StoredDocument, Store, versions_of, put, live, last_of, find_version, get_document,
  stripped, rest_of, next_version, insert_document, tombstone,
}
use agentsimjs.Documents.Versions.{
  Numbered, versions_of-put, versions_of-put_other, next_version-Numbered, find_version_above,
  last_of-live,
}
use agentsimjs.Documents.Deletion.{bury-Numbered, length-bury, tombstone-versions_of}

-- Saving a document under an id, or deleting the id.
pub data Op (D : Type 0) : Type 0 where
  save : Text → Text → D → Text → ℕ → Op D
  delete : Text → Op D

differ : (s t : Text) → text_eq s t ≡ false → s ≢ t
differ s t q e = let p = subst (λ x. text_eq s x ≡ true) e (text_eq_refl s) in cc

module _ {D : Type 0} where
  unfoldable pub run_ops : List (Op D) → Store D → Store D
  run_ops [] m = m
  run_ops (save id name d hash now ∷ ops) m = run_ops ops (insert_document m id name d hash now).1
  run_ops (delete id ∷ ops) m = run_ops ops (tombstone m id).1

  -- How often a document was saved under `id`.
  unfoldable pub saves : Text → List (Op D) → ℕ
  saves id [] = 0
  saves id (save other name d hash now ∷ ops) =
      let rest = saves id ops in if text_eq other id then suc rest else rest
  saves id (delete other ∷ ops) = saves id ops

  abbrev AllNumbered : Store D → Type 0
  AllNumbered m = (id : Text) → Numbered 1 (versions_of m id)

  next_version_lem : (es : List (Entry D)) → Numbered 1 es → next_version es ≡ suc (length es)
  unfolding next_version last_of
  next_version_lem [] h = refl
  next_version_lem (e ∷ es) h = next_version-Numbered 1 e es h ∙ omega arith

  Numbered-snoc :
      (k : ℕ) (es : List (Entry D)) (e : Entry D)
      → Numbered k es
      → e.version ≡ k + length es
      → Numbered k (es ++ e ∷ [])
  Numbered-snoc k [] e h v = (omega arith, tt)
  Numbered-snoc k (x ∷ xs) e (p, h) v = (p, Numbered-snoc (suc k) xs e h (omega arith))

  put-AllNumbered :
      (m : Store D) (id : Text) (es : List (Entry D))
      → AllNumbered m
      → Numbered 1 es
      → AllNumbered (put m id es)
  put-AllNumbered m id es h n other = elim (Bool-cases (text_eq id other)) [
    | inl q ↦
        let e = text_eq_sound id other q in
        subst (λ x. Numbered 1 (versions_of (put m id es) x)) e
          (subst (Numbered 1) (sym (versions_of-put m id es)) n)
    | inr q ↦
        subst (Numbered 1) (sym (versions_of-put_other m id other es (differ id other q))) (h other)
  ]

  insert-AllNumbered :
      (m : Store D) (id name : Text) (d : D) (hash : Text) (now : ℕ)
      → AllNumbered m
      → AllNumbered (insert_document m id name d hash now).1
  unfolding insert_document
  insert-AllNumbered m id name d hash now h = put-AllNumbered m id _ h (
      Numbered-snoc 1 (versions_of m id) _ (h id)
        (next_version_lem (versions_of m id) (h id) ∙ omega arith))

  tombstone-AllNumbered : (m : Store D) (id : Text) → AllNumbered m → AllNumbered (tombstone m id).1
  tombstone-AllNumbered m id h other =
      let (same, others) = tombstone-versions_of m id in
      elim (Bool-cases (text_eq id other)) [
        | inl q ↦
            subst (λ x. Numbered 1 (versions_of (tombstone m id).1 x)) (text_eq_sound id other q)
              (subst (Numbered 1) (sym same) (bury-Numbered 1 (versions_of m id) (h id)))
        | inr q ↦ subst (Numbered 1) (sym (others other (differ id other q))) (h other)
      ]

  run_ops-AllNumbered :
      (ops : List (Op D)) (m : Store D) → AllNumbered m → AllNumbered (run_ops ops m)
  unfolding run_ops
  run_ops-AllNumbered [] m h = h
  run_ops-AllNumbered (save id name d hash now ∷ ops) m h =
      run_ops-AllNumbered ops (insert_document m id name d hash now).1
        (insert-AllNumbered m id name d hash now h)
  run_ops-AllNumbered (delete id ∷ ops) m h =
      run_ops-AllNumbered ops (tombstone m id).1 (tombstone-AllNumbered m id h)

  insert-length :
      (m : Store D) (id name : Text) (d : D) (hash : Text) (now : ℕ)
      → length (versions_of (insert_document m id name d hash now).1 id)
        ≡ suc (length (versions_of m id))
  unfolding insert_document
  insert-length m id name d hash now =
      ap length (versions_of-put m id _) ∙ length-append (versions_of m id) _ ∙ omega arith

  insert-length_other :
      (m : Store D) (id other name : Text) (d : D) (hash : Text) (now : ℕ)
      → id ≢ other
      → length (versions_of (insert_document m id name d hash now).1 other)
        ≡ length (versions_of m other)
  unfolding insert_document
  insert-length_other m id other name d hash now h =
      ap length (versions_of-put_other m id other _ h)

  tombstone-length :
      (m : Store D) (id other : Text)
      → length (versions_of (tombstone m id).1 other) ≡ length (versions_of m other)
  tombstone-length m id other =
      let (same, others) = tombstone-versions_of m id in
      elim (Bool-cases (text_eq id other)) [
        | inl q ↦
            subst (λ x. length (versions_of (tombstone m id).1 x) ≡ length (versions_of m x))
              (text_eq_sound id other q) (ap length same ∙ length-bury (versions_of m id))
        | inr q ↦ ap length (others other (differ id other q))
      ]

  run_ops-length :
      (ops : List (Op D)) (m : Store D) (id : Text)
      → length (versions_of (run_ops ops m) id) ≡ saves id ops + length (versions_of m id)
  unfolding run_ops saves
  run_ops-length [] m id = omega arith
  run_ops-length (save other name d hash now ∷ ops) m id =
      let rest = run_ops-length ops (insert_document m other name d hash now).1 id in
      elim (Bool-cases (text_eq other id)) [
        | inl q ↦
            let n =
              subst
                (λ x.
                  length (versions_of (insert_document m other name d hash now).1 x)
                  ≡ suc (length (versions_of m x)))
                (text_eq_sound other id q) (insert-length m other name d hash now) in
            rw (q, saves) (omega arith)
        | inr q ↦
            let n = insert-length_other m other id name d hash now (differ other id q) in
            rw (q, saves) (omega arith)
      ]
  run_ops-length (delete other ∷ ops) m id =
      let rest = run_ops-length ops (tombstone m other).1 id in
      let n = tombstone-length m other id in omega arith

  -- After any saves and deletions from the empty store, the next save under an id gets the number of
  -- its saves so far plus one: a deletion gives no version back.
  pub insert_document-saves :
      (ops : List (Op D)) (id name : Text) (d : D) (hash : Text) (now : ℕ)
      → (insert_document (run_ops ops []) id name d hash now).0 ≡ suc (saves id ops)
  unfolding insert_document versions_of
  insert_document-saves ops id name d hash now =
      let n =
        next_version_lem (versions_of (run_ops ops []) id)
          (run_ops-AllNumbered ops [] (λ x. tt) id) in
      let l = run_ops-length ops [] id in omega arith

  abbrev pub saved_as : Text → ℕ → Text → D → Text → ℕ → StoredDocument D
  saved_as id v name d hash now = record {
    id = id;
    version = v;
    name = name;
    document = some d;
    content_hash = hash;
    created_at = now;
  }

  -- After any saves and deletions from the empty store, a saved document is what its id gives, as the
  -- latest version and under the version that the save returned.
  pub get_document-insert_document :
      (ops : List (Op D)) (id name : Text) (d : D) (hash : Text) (now : ℕ)
      → (get_document (insert_document (run_ops ops []) id name d hash now).1 id none
          ≡ some
              (saved_as id (insert_document (run_ops ops []) id name d hash now).0 name d hash now))
        × (get_document
              (insert_document (run_ops ops []) id name d hash now).1
              id
              (some (insert_document (run_ops ops []) id name d hash now).0)
            ≡ some (
                saved_as id
                  (insert_document (run_ops ops []) id name d hash now).0
                  name
                  d
                  hash
                  now))
  unfolding insert_document get_document stripped rest_of versions_of
  get_document-insert_document ops id name d hash now =
      let m = run_ops ops [] in
      let es = versions_of m id in
      let h = run_ops-AllNumbered ops [] (λ x. tt) id in
      let n = next_version_lem es h in
      let e : Entry D = record {
        id = id;
        version = next_version es;
        name = name;
        document = some d;
        content_hash = hash;
        created_at = now;
        deleted = false;
      } in
      let p = versions_of-put m id (es ++ e ∷ []) in
      (
        ap (λ ys. stripped (last_of (live ys))) p ∙ ap stripped (last_of-live es e refl),
        ap (λ ys. stripped (find_version (live ys) (next_version es))) p
            ∙ ap stripped (find_version_above 1 (next_version es) es e h (omega arith) refl refl),
      )
