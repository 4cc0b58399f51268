-- ===== src/Ontology/Cache.antt =====
-- ontology/model.ts: the models bound to workflows, `setWorkflowModel`. The map `workflowContent` is
-- passed in and returned. The loop that evicts takes as fuel the number of bound models, since each
-- round drops one.
use qlerify_live.Prelude.{
  ℕ, zero, suc, String, ◌≤◌, ◌≡◌, ap, ◌∙◌, Bool, true, false, Option, none, some, [], ◌∷◌, ◌++◌,
  string_eq, if◌then◌else◌, ltb, length, Map, get, put, delete, get-delete, arith, eq_iff,
}
use qlerify_live.Prelude.Entries.{
  length-delete_first, put-missing, delete-append, get-append, get-delete_self, other_key,
}

pub record BoundModel : Type 0 where
  pub workflow : String
  pub overlay : Option String
  pub hash : String

abbrev pub workflow_content_max : ℕ
workflow_content_max = 64

-- Drops the oldest while there are too many.
unfoldable pub evict : ℕ → Map BoundModel → Map BoundModel
unfolding delete
evict zero m = m
evict (suc fuel) [] = []
evict (suc fuel) ((oldest, model) ∷ m) =
    let rest = evict fuel (delete ((oldest, model) ∷ m) oldest) in
    if ltb workflow_content_max (suc (length m)) then rest else (oldest, model) ∷ m

-- A workflow that is bound again moves to the end.
unfoldable pub set_workflow_model : String → BoundModel → Map BoundModel → Map BoundModel
unfolding evict delete put
set_workflow_model workflow_id model m =
    let bound = put (delete m workflow_id) workflow_id model in evict (length bound) bound

length-evict :
    (fuel : ℕ) (m : Map BoundModel) → length m ≤ fuel → length (evict fuel m) ≤ workflow_content_max
unfolding evict
length-evict zero m h = omega (arith, h)
length-evict (suc fuel) [] h = omega arith
length-evict (suc fuel) ((k, v) ∷ m) h = ground (
  arith,
  h,
  length-evict fuel (delete ((k, v) ∷ m) k) (omega (arith, h, length-delete_first k v m)),
)

get-if :
    (b : Bool) (m n : Map BoundModel) (id : String) {o : Option BoundModel}
    → get m id ≡ o
    → get n id ≡ o
    → get (if b then m else n) id ≡ o
get-if true m n id h k = h
get-if false m n id h k = k

-- The newest is not evicted.
get-evict :
    (fuel : ℕ) (m : Map BoundModel) (id : String) (v : BoundModel)
    → get m id ≡ none
    → get (evict fuel (m ++ (id, v) ∷ [])) id ≡ some v
unfolding evict
get-evict zero m id v h = get-append m id v h
get-evict (suc fuel) [] id v h = get-append [] id v h
get-evict (suc fuel) ((x, w) ∷ m) id v h =
    get-if (ltb workflow_content_max (suc (length (m ++ (id, v) ∷ [])))) _ _ id
      (ap (λ d. get (evict fuel d) id) (delete-append ((x, w) ∷ m) x id v (other_key x w m id h))
        ∙ get-evict fuel (delete ((x, w) ∷ m) x) id v
            (ground (arith, eq_iff x id, h, get-delete ((x, w) ∷ m) x id)))
      (get-append ((x, w) ∷ m) id v h)

-- After a model is bound to a workflow, it is the workflow's model, and no more than 64 are bound.
pub set_workflow_model-bound :
    (workflow_id : String) (model : BoundModel) (m : Map BoundModel)
    → (get (set_workflow_model workflow_id model m) workflow_id ≡ some model)
      × (length (set_workflow_model workflow_id model m) ≤ workflow_content_max)
unfolding set_workflow_model
set_workflow_model-bound workflow_id model m =
    let bound = put (delete m workflow_id) workflow_id model in
    let missing = get-delete_self m workflow_id in
    (
      ap (λ b. get (evict (length bound) b) workflow_id)
            (put-missing (delete m workflow_id) workflow_id model missing)
          ∙ get-evict (length bound) (delete m workflow_id) workflow_id model missing,
      length-evict (length bound) bound (omega arith),
    )
