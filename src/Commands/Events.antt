-- ===== src/Commands/Events.antt =====
-- What a generic command emits.
use qlerify_live.Prelude.{
  if_either, String, Bool, true, false, Option, none, some, List, [], ◌∷◌, ◌++◌, ◌≡◌, refl, ap,
  subst, nat_beq, length, Map, get,
}
use qlerify_live.Errors.{Result, ok, throw}
use qlerify_live.Ontology.Schema.{Value, Model, EntitySchema}
use qlerify_live.Projection.{Row, id_text, Inserted, unique_constraint, inserted}
use qlerify_live.Commands.{
  Scene, World, Emitted, Binding, Outcome, Mode, create, update_row, do_create, create_filled,
  do_update, settle_insert, settle_update, update_found, update_given, write_changes, row_changes,
  emit_for, event_of, with_rows, run_mode, run_ready, run_bound, classify, ensure_table, make_table,
  resolve_binding, generic_apply,
}

-- An outcome that throws has emitted nothing; one that returns a row has emitted one event more, of the
-- binding's event and for the row.
pub Emits : List Emitted → Binding → String → Outcome Row → Type 0
Emits log b role (after, throw e) = after.log ≡ log
Emits log b role (after, ok row) =
    (event : Emitted) × (after.log ≡ log ++ event ∷ [])
    × (event.ref ≡ b.event.ref)
    × (event.aggregate_id ≡ id_text (get row "id"))
    × (event.role ≡ role)

module _ (world : World) (b : Binding) (args : Map Value) (role : String) where
  emit_for-Emits :
      (w : World) (row : Option Row)
      → w.log ≡ world.log
      → Emits world.log b role (emit_for w b args role row)
  unfolding emit_for Emits event_of
  emit_for-Emits w none h = h
  emit_for-Emits w (some row) h =
      (event_of b args role row, ap (λ l. l ++ event_of b args role row ∷ []) h, refl, refl, refl)

  settle_update-Emits :
      (id : String) (r : Option (List Row × Option Row))
      → Emits world.log b role (settle_update world b args role id r)
  unfolding settle_update Emits
  settle_update-Emits id none = refl
  settle_update-Emits id (some (after, row)) =
      emit_for-Emits (with_rows world b.aggregate after) row refl

  settle_insert-Emits :
      (id : String) (r : Inserted) → Emits world.log b role (settle_insert world b args role id r)
  unfolding settle_insert Emits
  settle_insert-Emits id unique_constraint = refl
  settle_insert-Emits id (inserted after row) =
      emit_for-Emits (with_rows world b.aggregate after) row refl

  update_found-Emits :
      (scene : Scene) (id : String) (found : Option Row)
      → Emits world.log b role (update_found scene world b args role id found)
  unfolding update_found write_changes Emits
  update_found-Emits scene id none = refl
  update_found-Emits scene id (some row) =
      if_either (Emits world.log b role) (nat_beq (length (row_changes scene b args)) 0) _ _
        (emit_for-Emits world (some row) refl) (settle_update-Emits id _)

  update_given-Emits :
      (scene : Scene) (id : Option String)
      → Emits world.log b role (update_given scene world b args role id)
  unfolding update_given Emits
  update_given-Emits scene none = refl
  update_given-Emits scene (some id) = update_found-Emits scene id _

  create_filled-Emits :
      (scene : Scene) (id : String) (columns : Map Value) (missing : List String)
      → Emits world.log b role (create_filled scene world b args role id columns missing)
  unfolding create_filled Emits
  create_filled-Emits scene id columns [] = settle_insert-Emits id _
  create_filled-Emits scene id columns (m ∷ missing) = refl

  do_create-Emits : (scene : Scene) → Emits world.log b role (do_create scene world b args role)
  unfolding do_create
  do_create-Emits scene = create_filled-Emits scene _ _ _

  run_mode-Emits :
      (scene : Scene) (mode : Result Mode)
      → Emits world.log b role (run_mode scene world b args role mode)
  unfolding Emits do_update
  run_mode-Emits scene (throw e) = refl
  run_mode-Emits scene (ok create) = do_create-Emits scene
  run_mode-Emits scene (ok update_row) = update_given-Emits scene _

abbrev HasLog : List Emitted → Result World → Type 0
HasLog log (throw e) = Unit
HasLog log (ok ready) = ready.log ≡ log

make_table-HasLog :
    (world : World) (e : EntitySchema) (there reserved : Bool)
    → HasLog world.log (make_table world e there reserved)
unfolding make_table
make_table-HasLog world e true reserved = refl
make_table-HasLog world e false true = tt
make_table-HasLog world e false false = refl

ensure_table-HasLog : (world : World) (e : EntitySchema) → HasLog world.log (ensure_table world e)
unfolding ensure_table
ensure_table-HasLog world e = make_table-HasLog world e _ _

run_ready-Emits :
    (scene : Scene) (log : List Emitted) (world : World) (command_name : String) (args : Map Value)
    (role : String) (b : Binding) (ready : Result World)
    → world.log ≡ log
    → HasLog log ready
    → Emits log b role (run_ready scene world command_name args role b ready)
unfolding run_ready Emits
run_ready-Emits scene log world command_name args role b (throw e) k h = k
run_ready-Emits scene log world command_name args role b (ok ready) k h =
    subst
      (λ l.
        Emits l b role
          (run_mode scene ready b args role (classify scene ready command_name args b)))
      h (run_mode-Emits ready b args role scene _)

run_bound-Emits :
    (scene : Scene) (world : World) (command_name : String) (args : Map Value) (role : String)
    (b : Binding)
    → Emits world.log b role (run_bound scene world command_name args role (ok b))
unfolding run_bound
run_bound-Emits scene world command_name args role b =
    run_ready-Emits scene world.log world command_name args role b _ refl
      (ensure_table-HasLog world b.aggregate)

-- A generic command that is bound to an event either throws, and has emitted nothing, or returns a row,
-- and has emitted one event more: the one that it is bound to, with the row's id and the caller's role.
pub generic_apply-Emits :
    (scene : Scene) (world : World) (ont : Result Model) (command_name : String) (args : Map Value)
    (role : String) (event_ref : Option String) (b : Binding)
    → resolve_binding ont command_name event_ref ≡ ok b
    → Emits world.log b role (generic_apply scene world ont command_name args role event_ref)
unfolding generic_apply
generic_apply-Emits scene world ont command_name args role event_ref b h =
    rw h (run_bound-Emits scene world command_name args role b)
