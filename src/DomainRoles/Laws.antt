-- ===== src/DomainRoles/Laws.antt =====
-- `assignDomainRole` with the calls that follow it.
use qlerify_live.Prelude.{
  ℕ, String, ◌≡◌, refl, sym, ap, subst, ◌∙◌, Bool, true, false, Option, none, some, List, [], ◌∷◌,
  ◌++◌, ◌==◌, string_eq, not, any, filter, find, Memᴰ, arith, eq_iff, if_either, find-eq-some,
  mem-map, mem-filter,
}
use qlerify_live.Errors.{ok}
use qlerify_live.Connectors.Rules.{trim}
use qlerify_live.DomainRoles.{
  RoleRow, RoleInput, Directory, same_assignment, created, insert_unless, upsert, workflow_known,
  is_member, guarded, assign_domain_role, is_assignment, is_lane_of, insert_row, order_rows,
  by_role, remove_domain_role, domain_roles_for,
}

ok-injective : {A : Type 0} {a b : A} → ok a ≡ ok b → a ≡ b
ok-injective h = cc

-- Where the guards let one value through, they let every value through.
guarded-ok :
    {A : Type 0} (empty workflow member : Bool) (x y : A) {r : A}
    → guarded empty workflow member x ≡ ok r
    → (x ≡ r) × (guarded empty workflow member y ≡ ok y)
guarded-ok true w m x y h = cc
guarded-ok false false m x y h = cc
guarded-ok false true false x y h = cc
guarded-ok false true true x y h = (ok-injective h, refl)

same-created :
    (input : RoleInput) (role id : String) (now : ℕ)
    → same_assignment input role (created input role id now) ≡ true
unfolding same_assignment
same-created input role id now = ground (
  arith,
  eq_iff input.organization_id input.organization_id,
  eq_iff input.workflow_id input.workflow_id,
  eq_iff input.identity_id input.identity_id,
  eq_iff role role,
)

find-append :
    (p : RoleRow → Bool) (rows : List RoleRow) (x : RoleRow)
    → find p rows ≡ none
    → p x ≡ true
    → find p (rows ++ x ∷ []) ≡ some x
unfolding find
find-append p [] x h k = rw k refl
find-append p (y ∷ rows) x h k = ground (arith, find-append p rows x)

mem-insert_row :
    (before : RoleRow → RoleRow → Bool) (r : RoleRow) (rows : List RoleRow) (x : RoleRow)
    → Memᴰ x (r ∷ rows)
    → Memᴰ x (insert_row before r rows)
unfolding insert_row
mem-insert_row before r [] x m = m
mem-insert_row before r (y ∷ rows) x m =
    if_either (λ l. Memᴰ x l) (before r y) (r ∷ y ∷ rows) (y ∷ insert_row before r rows) m
      (elim m [
        | Memᴰ.head q ↦ Memᴰ.tail (mem-insert_row before r rows x (Memᴰ.head q))
        | Memᴰ.tail n ↦ elim n [
          | Memᴰ.head q ↦ Memᴰ.head q
          | Memᴰ.tail k ↦ Memᴰ.tail (mem-insert_row before r rows x (Memᴰ.tail k))
        ]
      ])

mem-order_rows :
    (before : RoleRow → RoleRow → Bool) {x : RoleRow} (rows : List RoleRow)
    → Memᴰ x rows
    → Memᴰ x (order_rows before rows)
unfolding order_rows
mem-order_rows before [] m = m
mem-order_rows before (r ∷ rows) m =
    mem-insert_row before r (order_rows before rows) _ (elim m [
      | Memᴰ.head q ↦ Memᴰ.head q
      | Memᴰ.tail n ↦ Memᴰ.tail (mem-order_rows before rows n)
    ])

module _ (input : RoleInput) (role : String) (rows : List RoleRow) where
  -- The row of the key is there after it, and that is the row whose id is returned.
  upsert-finds :
      (id : String) (now : ℕ) (found : Option RoleRow)
      → find (same_assignment input role) rows ≡ found
      → (r : RoleRow) × (find
            (same_assignment input role)
            (insert_unless rows (created input role id now) found).0
          ≡ some r)
        × ((insert_unless rows (created input role id now) found).1 ≡ r.id)
  upsert-finds id now none h = (
    created input role id now,
    find-append (same_assignment input role) rows (created input role id now) h
        (same-created input role id now),
    refl,
  )
  upsert-finds id now (some old) h = (old, h, refl)

  upsert-upsert :
      (id id' : String) (now now' : ℕ)
      → upsert input role id' now' (upsert input role id now rows).0 ≡ upsert input role id now rows
  unfolding upsert
  upsert-upsert id id' now now' =
      let (r, f, e) = upsert-finds id now (find (same_assignment input role) rows) refl in
      rw f (ap (λ i. ((upsert input role id now rows).0, i)) (sym e))

  upsert-listed :
      (before : String → String → Bool) (id : String) (now : ℕ)
      → Memᴰ role (
          domain_roles_for before input.organization_id input.workflow_id input.identity_id
            (upsert input role id now rows).0)
  unfolding upsert domain_roles_for same_assignment
  upsert-listed before id now =
      let (r, f, e) = upsert-finds id now (find (same_assignment input role) rows) refl in
      let (m, q) = find-eq-some (same_assignment input role) _ f in
      let lane : r.domain_role ≡ role = (eq_iff r.domain_role role).0 (ground (arith, q)) in
      let lanes =
        domain_roles_for before input.organization_id input.workflow_id input.identity_id
          (upsert input role id now rows).0 in
      subst (λ t. Memᴰ t lanes) lane
        (mem-map (λ x. x.domain_role)
          (mem-order_rows (by_role before) _ (
            mem-filter (is_lane_of input.organization_id input.workflow_id input.identity_id) _ m
              (ground (arith, q)))))

-- Once a member has a lane of a workflow assigned, it is among the lanes that the member plays there, and
-- assigning it again, with whatever id and at whatever time, returns the same id and leaves the table as
-- it is.
pub assign_domain_role-again :
    (before : String → String → Bool) (dir : Directory) (input : RoleInput) (id later_id : String)
    (now later : ℕ) (rows after : List RoleRow) (row_id : String)
    → assign_domain_role dir input id now rows ≡ ok (after, row_id)
    → Memᴰ
        (trim input.domain_role)
        (domain_roles_for before input.organization_id input.workflow_id input.identity_id after)
      × (assign_domain_role dir input later_id later after ≡ ok (after, row_id))
unfolding assign_domain_role
assign_domain_role-again before dir input id later_id now later rows after row_id h =
    let role = trim input.domain_role in
    let (e, again) =
      guarded-ok (role == "") (workflow_known dir input) (is_member dir input)
        (upsert input role id now rows) (upsert input role later_id later after) h in
    (
      subst
          (λ r.
            Memᴰ role (
              domain_roles_for before input.organization_id input.workflow_id input.identity_id
                r.0))
          e (upsert-listed input role rows before id now),
      again
          ∙ ap ok (
              ap (λ r. upsert input role later_id later r.0) (sym e)
              ∙ (upsert-upsert input role rows id later_id now later ∙ e)),
    )

module _ (organization_id id : String) (r : RoleRow) where
  any-append :
      (rows : List RoleRow)
      → is_assignment organization_id id r ≡ true
      → any (is_assignment organization_id id) (rows ++ r ∷ []) ≡ true
  unfolding any
  any-append [] h = rw h refl
  any-append (x ∷ rows) h = ground (arith, any-append rows h)

  filter-others :
      (rows : List RoleRow)
      → is_assignment organization_id id r ≡ true
      → any (is_assignment organization_id id) rows ≡ false
      → filter (λ x. not (is_assignment organization_id id x)) (rows ++ r ∷ []) ≡ rows
  unfolding any filter
  filter-others [] h k = rw h refl
  filter-others (x ∷ rows) h k = ground (arith, filter-others rows h)

-- A new assignment, under an id that is not taken in the organisation, is removed by the id that is
-- returned, and then the table is as it was.
pub remove_domain_role-assign_domain_role :
    (dir : Directory) (input : RoleInput) (id : String) (now : ℕ) (rows after : List RoleRow)
    (row_id : String)
    → find (same_assignment input (trim input.domain_role)) rows ≡ none
    → any (is_assignment input.organization_id id) rows ≡ false
    → assign_domain_role dir input id now rows ≡ ok (after, row_id)
    → remove_domain_role input.organization_id row_id after ≡ ok rows
unfolding assign_domain_role upsert remove_domain_role
remove_domain_role-assign_domain_role dir input id now rows after row_id h k l =
    let role = trim input.domain_role in
    let r = created input role id now in
    let own : is_assignment input.organization_id id r ≡ true =
      ground (arith, eq_iff id id, eq_iff input.organization_id input.organization_id) in
    let (e, _) =
      guarded-ok (role == "") (workflow_known dir input) (is_member dir input)
        (upsert input role id now rows) (upsert input role id now rows) l in
    let done : insert_unless rows r none ≡ (after, row_id) =
      sym (ap (insert_unless rows r) h) ∙ e in
    subst (λ s. remove_domain_role input.organization_id s.1 s.0 ≡ ok rows) done
      (rw (any-append input.organization_id id r rows own)
        (ap ok (filter-others input.organization_id id r rows own k)))
