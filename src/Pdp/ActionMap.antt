-- ===== src/Pdp/ActionMap.antt =====
-- platform/pdp/action-map.ts: the permission that each action needs.
use qlerify_live.Prelude.{
  String, Option, none, some, List, [], ◌∷◌, ◌==◌, string_eq, if◌then◌else◌, template,
}
use qlerify_live.Errors.{Result, ok, throw, other_error}
use qlerify_live.Pdp.Types.{Permission, view, edit, administer, deploy}

abbrev pub action_permission_map : List (String × Permission)
action_permission_map =
    ("ontology.read", view)
    ∷ ("ontology.edit", edit)
    ∷ ("ontology.write", edit)
    ∷ ("ontology.delete", administer)
    ∷ ("ontology.share", administer)
    ∷ ("model.apply", administer)
    ∷ ("model.fetch", administer)
    ∷ ("model.roll", administer)
    ∷ ("model.restore", administer)
    ∷ ("dataset.read", view)
    ∷ ("dataset.write", edit)
    ∷ ("dataset.delete", administer)
    ∷ ("dataset.share", administer)
    ∷ ("pipeline.run", edit)
    ∷ ("workflow.read", view)
    ∷ ("workflow.command.write", edit)
    ∷ ("workflow.sim.write", edit)
    ∷ ("workflow.sim.administer", administer)
    ∷ ("connector.read", view)
    ∷ ("connector.build", administer)
    ∷ ("connector.edit", edit)
    ∷ ("connector.administer", administer)
    ∷ ("recommendations.generate", edit)
    ∷ ("organization.administer", administer)
    ∷ ("environment.deploy", deploy)
    ∷ []

-- A property read of a `Record<string, Permission>` literal, for keys that `Object.prototype` lacks.
unfoldable pub permission_of : String → List (String × Permission) → Option Permission
permission_of action [] = none
permission_of action ((key, p) ∷ entries) =
    if key == action then some p else permission_of action entries

found_permission : String → Option Permission → Result Permission
found_permission action none = throw (
    other_error
      (template ("unknown action \"" ∷ action ∷ "\" — add it to ACTION_PERMISSION_MAP" ∷ [])))
found_permission action (some p) = ok p

unfoldable pub action_to_permission : String → Result Permission
unfolding found_permission permission_of
action_to_permission action = found_permission action (permission_of action action_permission_map)
