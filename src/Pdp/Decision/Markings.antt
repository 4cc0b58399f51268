-- ===== src/Pdp/Decision/Markings.antt =====
-- The MAC gate of `authorize`.
use qlerify_live.Prelude.{
  String, ◌≡◌, refl, sym, subst, inl, inr, ◌↔◌, Bool, none, List, [], ◌∷◌, Memᴰ, ◌&&◌, ◌==◌,
  string_eq, arith, Bool-cases, filter, filter-mem, mem-filter, map-mem, mem-map, has, has-mem,
  mem-has, mem-cons, eq_of_beq, beq_of_eq, and-eq-true, and_intro, Exists, All,
}
use qlerify_live.Pdp.Types.{ResourceMarking, Tables}
use qlerify_live.Pdp.Decision.{missing_marking, required_markings}

missing_marking-none :
    (held required : List String)
    → missing_marking held required ≡ none
    → All (λ m. Memᴰ m held) required
unfolding missing_marking
missing_marking-none held [] e m k = elim k [ ]
missing_marking-none held (x ∷ required) e m k = elim (Bool-cases (has held x)) [
  | inl h ↦ elim (mem-cons k) [
    | inl q ↦ subst (λ z. Memᴰ z held) (sym q) (has-mem held x h)
    | inr k' ↦ missing_marking-none held required (ground arith) m k'
  ]
  | inr h ↦ ground arith
]

pub missing_marking-eq-none :
    (held required : List String)
    → All (λ m. Memᴰ m held) required
    → missing_marking held required ≡ none
unfolding missing_marking
missing_marking-eq-none held [] h = refl
missing_marking-eq-none held (x ∷ required) h =
    rw (mem-has held x (h x (Memᴰ.head refl)))
      (missing_marking-eq-none held required (λ m k. h m (Memᴰ.tail k)))

pub missing_marking_iff :
    (held required : List String)
    → (missing_marking held required ≡ none) ↔ All (λ m. Memᴰ m held) required
missing_marking_iff held required =
    (missing_marking-none held required, missing_marking-eq-none held required)

module _ (db : Tables) (organization_id resource_id : String) where
  abbrev pub OnResource : ResourceMarking → Type 0
  OnResource m = (m.organization_id ≡ organization_id) × (m.resource_id ≡ resource_id)

  test : ResourceMarking → Bool
  test m = m.organization_id == organization_id && m.resource_id == resource_id

  pub required-listed :
      (id : String)
      → Memᴰ id (required_markings db organization_id resource_id)
      → Exists (λ m. OnResource m × (id ≡ m.marking_id)) db.resource_markings
  unfolding required_markings test
  required-listed id k =
      let (m, kept, q) = map-mem (λ row. row.marking_id) (filter test db.resource_markings) k in
      let (listed, holds) = filter-mem test db.resource_markings kept in
      let (org, this) = and-eq-true _ _ holds in
      (m, listed, ((eq_of_beq _ _ org, eq_of_beq _ _ this), q))

  pub listed-required :
      (m : ResourceMarking)
      → Memᴰ m db.resource_markings
      → OnResource m
      → Memᴰ m.marking_id (required_markings db organization_id resource_id)
  unfolding required_markings test
  listed-required m k (org, this) =
      mem-map (λ row. row.marking_id)
        (mem-filter test db.resource_markings k
          (and_intro _ _ (beq_of_eq _ _ org) (beq_of_eq _ _ this)))
