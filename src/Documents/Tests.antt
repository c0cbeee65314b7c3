-- ===== src/Documents/Tests.antt =====
-- Documents saved and deleted at concrete ids.
use agentsimjs.Prelude.{ℕ, suc, ◌≡◌, ◌≢◌, refl, List, [], ◌∷◌, none, some}
use agentsimjs.Expr.Syntax.{Text, text_eq}
use agentsimjs.Documents.{get_document, insert_document, tombstone}
use agentsimjs.Documents.History.{
  Op, save, delete, run_ops, saves, saved_as, insert_document-saves, get_document-insert_document,
}
use agentsimjs.Documents.Deletion.{get_document-tombstone}

abbrev a_id : Text
a_id = 97 ∷ []

abbrev b_id : Text
b_id = 98 ∷ []

abbrev c_id : Text
c_id = 99 ∷ []

abbrev ops : List (Op ℕ)
ops =
    save a_id (120 ∷ []) 7 (104 ∷ []) 1
    ∷ save b_id (121 ∷ []) 8 (105 ∷ []) 2
    ∷ delete a_id
    ∷ save a_id (122 ∷ []) 9 (106 ∷ []) 3
    ∷ delete c_id
    ∷ []

-- the version that the deletion buried is not given again
saves_after_delete : (insert_document (run_ops ops []) a_id (119 ∷ []) 5 (107 ∷ []) 4).0 ≡ 3
unfolding insert_document run_ops tombstone text_eq
saves_after_delete = refl

first_version_gone : get_document (run_ops ops []) a_id (some 1) ≡ none
unfolding get_document run_ops tombstone insert_document text_eq
first_version_gone = refl

insert_document-saves_example :
    (insert_document (run_ops ops []) a_id (119 ∷ []) 5 (107 ∷ []) 4).0 ≡ suc (saves a_id ops)
insert_document-saves_example = insert_document-saves ops a_id (119 ∷ []) 5 (107 ∷ []) 4

get_document-insert_document_example :
    (get_document (insert_document (run_ops ops []) a_id (119 ∷ []) 5 (107 ∷ []) 4).1 a_id none
      ≡ some (
          saved_as a_id
            (insert_document (run_ops ops []) a_id (119 ∷ []) 5 (107 ∷ []) 4).0
            (119 ∷ [])
            5
            (107 ∷ [])
            4))
    × (get_document
          (insert_document (run_ops ops []) a_id (119 ∷ []) 5 (107 ∷ []) 4).1
          a_id
          (some (insert_document (run_ops ops []) a_id (119 ∷ []) 5 (107 ∷ []) 4).0)
        ≡ some (
            saved_as a_id
              (insert_document (run_ops ops []) a_id (119 ∷ []) 5 (107 ∷ []) 4).0
              (119 ∷ [])
              5
              (107 ∷ [])
              4))
get_document-insert_document_example =
    get_document-insert_document ops a_id (119 ∷ []) 5 (107 ∷ []) 4

get_document-tombstone_example :
    (get_document (tombstone (run_ops ops []) a_id).1 a_id none ≡ none)
    × ((other : Text)
        → a_id ≢ other
        → get_document (tombstone (run_ops ops []) a_id).1 other none
          ≡ get_document (run_ops ops []) other none)
get_document-tombstone_example = get_document-tombstone (run_ops ops []) a_id none
