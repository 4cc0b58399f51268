-- ===== src/Pdp/Decision/Subtract.antt =====
-- Markings only subtract, and what an unknown action ends in.
use qlerify_live.Prelude.{String, refl, inl, inr, ◌∷◌, Memᴰ}
use qlerify_live.Pdp.Types.{ResourceMarking, TenantContext, AuthzResource, Principal, Tables}
use qlerify_live.Pdp.Principals.Rows.{Holds-of_same_rows}
use qlerify_live.Pdp.Principals.Markings.{IsKey}
use qlerify_live.Pdp.Decision.{authorize}
use qlerify_live.Pdp.Decision.Laws.{Allows, IsPermitted, authorize_iff}

abbrev pub with_marking : ResourceMarking → Tables → Tables
with_marking m db = record db { resource_markings = m ∷ db.resource_markings }

module _ (db : Tables) (m : ResourceMarking) (organization_id : String) where
  unmark-IsKey :
      (principal : Principal) (k : String)
      → IsKey (with_marking m db) organization_id principal k
      → IsKey db organization_id principal k
  unmark-IsKey principal k (inl q) = inl q
  unmark-IsKey principal k (inr (person, (g, h, q))) =
      inr (person, (g, Holds-of_same_rows (with_marking m db) db organization_id _ refl h, q))

-- A marking that is put on a resource never makes an action allowed that was not allowed before.
pub authorize-with_marking :
    (db : Tables) (m : ResourceMarking) (action : String) (r : AuthzResource) (ctx : TenantContext)
    → Allows (authorize (with_marking m db) action r ctx)
    → Allows (authorize db action r ctx)
authorize-with_marking db m action r ctx h = (authorize_iff db action r ctx).1 (record {
  same_org = w.same_org;
  marked = λ x k on.
      let (g, listed, (org, acts, q)) = w.marked x (Memᴰ.tail k) on in
      (g, listed, (org, unmark-IsKey db m ctx.organization_id ctx.principal _ acts, q));
  permission = w.permission;
  mapped = w.mapped;
  access = elim w.access [
    | inl glass ↦ inl glass
    | inr (inl (a, listed, (org, chained, acts, means))) ↦ inr (
        inl (
          a,
          listed,
          (org, chained, unmark-IsKey db m ctx.organization_id ctx.principal _ acts, means),
        ))
    | inr (inr (s, listed, (org, id, acts, means))) ↦ inr (
        inr
          (s, listed, (org, id, unmark-IsKey db m ctx.organization_id ctx.principal _ acts, means)))
  ];
})
  where
    w : IsPermitted (with_marking m db) action r ctx
    w = (authorize_iff (with_marking m db) action r ctx).0 h
