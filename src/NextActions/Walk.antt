-- ===== src/NextActions/Walk.antt =====
-- The walk along `coupledTo` ends: the fuel that it is given is enough.
use qlerify_live.Prelude.{
  ℕ, zero, suc, String, ◌+◌, ◌≤◌, ◌≡◌, refl, sym, ◌∙◌, ◌↔◌, ◌⊎◌, Bool, true, false, Option, none,
  some, List, [], ◌∷◌, ◌++◌, ◌==◌, string_eq, Memᴰ, All, length, length-append, length-map, has,
  has-mem, get, arith, true≢false, mem-has, mem-append_left, mem-append_right, Bool-cases,
  Option-cases, mem-append, subst, inl, inr,
}
use qlerify_live.Prelude.Distinct.{Distinct, Distinct-append, length-Distinct}
use qlerify_live.Ontology.{OntologyEvent, event_by_key}
use qlerify_live.Ontology.Graph.{index_by-get_other}
use qlerify_live.Ontology.Loop.{keys_of}
use qlerify_live.NextActions.{fired_or, satisfied_along, pred_satisfied}

event_by_key-mem :
    (events : List OntologyEvent) (k : String) (e : OntologyEvent)
    → event_by_key events k ≡ some e
    → Memᴰ k (keys_of events)
unfolding event_by_key get
event_by_key-mem events k e h = elim (Bool-cases (has (keys_of events) k)) [
  | inl there ↦ has-mem (keys_of events) k there
  | inr missing ↦ absurd (none≢some (sym (index_by-get_other (λ e. e) events [] k missing) ∙ h))
]
  where
    none≢some : ¬ (none ≡ some e)
    none≢some q = cc

some≢none : {A : Type 0} {a : A} → ¬ (some a ≡ none)
some≢none h = cc

module _ (events : List OntologyEvent) (fired : List String) where
  -- The event of a key has fired, or one that it comes to along `coupledTo`.
  pub data AnchorFired : Option String → Type 0 where
    fires :
        (k : String) (e : OntologyEvent)
        → (k == "") ≡ false
        → event_by_key events k ≡ some e
        → has fired e.ref ≡ true
        → AnchorFired (some k)
    follows :
        (k : String) (e : OntologyEvent)
        → (k == "") ≡ false
        → event_by_key events k ≡ some e
        → AnchorFired e.coupled_to
        → AnchorFired (some k)

  -- What an anchor means for the key that it is of.
  anchor_of :
      {next : Option String} (k : String)
      → AnchorFired next
      → next ≡ some k
      → (e : OntologyEvent) × ((k == "") ≡ false)
        × (event_by_key events k ≡ some e)
        × ((has fired e.ref ≡ true) ⊎ AnchorFired e.coupled_to)
  anchor_of k (fires x e full found f) q =
      let same : x ≡ k = cc in
      (
        e,
        subst (λ z. (z == "") ≡ false) same full,
        subst (λ z. event_by_key events z ≡ some e) same found,
        inl f,
      )
  anchor_of k (follows x e full found a) q =
      let same : x ≡ k = cc in
      (
        e,
        subst (λ z. (z == "") ≡ false) same full,
        subst (λ z. event_by_key events z ≡ some e) same found,
        inr a,
      )

  no_anchor : {next : Option String} → next ≡ none → ¬ AnchorFired next
  no_anchor q (fires x e full found f) = some≢none q
  no_anchor q (follows x e full found a) = some≢none q

  -- What was seen has not fired, and goes on to what was seen or to what comes next.
  Passed : List String → Option String → Type 0
  Passed seen next =
      (x : String)
      → Memᴰ x seen
      → (e : OntologyEvent) → event_by_key events x ≡ some e
      → (has fired e.ref ≡ false)
        × ((y : String) → e.coupled_to ≡ some y → (has seen y ≡ true) ⊎ (next ≡ some y))

  -- Where the next key was seen, nothing seen has an anchor.
  none_in_cycle :
      (seen : List String) (k : String)
      → Passed seen (some k)
      → has seen k ≡ true
      → {next : Option String} → AnchorFired next
      → (x : String) → next ≡ some x
      → ¬ (has seen x ≡ true)
  unfolding Passed
  none_in_cycle seen k p h (fires x' e full found f) x q there =
      let at_x : event_by_key events x ≡ some e =
        subst (λ z. event_by_key events z ≡ some e) (let same : x' ≡ x = cc in same) found in
      true≢false (sym f ∙ (p x (has-mem seen x there) e at_x).0)
  none_in_cycle seen k p h (follows x' e full found a) x q there =
      let at_x : event_by_key events x ≡ some e =
        subst (λ z. event_by_key events z ≡ some e) (let same : x' ≡ x = cc in same) found in
      elim (Option-cases e.coupled_to) [
        | inl ends ↦ no_anchor ends a
        | inr (y, on) ↦ elim ((p x (has-mem seen x there) e at_x).1 y on) [
          | inl seen_too ↦ none_in_cycle seen k p h a y on seen_too
          | inr is_k ↦
              none_in_cycle seen k p h a y on
                (subst (λ z. has seen z ≡ true) (let same : k ≡ y = cc in same) h)
        ]
      ]

  -- The walk gives an answer, and that is whether there is an anchor.
  Decides : Option Bool → Option String → Type 0
  Decides out next = (b : Bool) × (out ≡ some b) × ((b ≡ true) ↔ AnchorFired next)

  no-Decides : (next : Option String) → ¬ AnchorFired next → Decides (some false) next
  unfolding Decides
  no-Decides next n = (false, refl, ((λ h. absurd (true≢false (sym h))), (λ a. absurd (n a))))

  past_the_end :
      (fuel : ℕ) (seen : List String)
      → suc zero ≤ fuel
      → satisfied_along events fired fuel seen none ≡ some false
  unfolding satisfied_along
  past_the_end zero seen h = absurd (omega (arith, h))
  past_the_end (suc fuel) seen h = refl

  on-Decides :
      (k : String) (e : OntologyEvent) (rest : Option Bool)
      → (k == "") ≡ false
      → event_by_key events k ≡ some e
      → has fired e.ref ≡ false
      → Decides rest e.coupled_to
      → Decides rest (some k)
  unfolding Decides
  on-Decides k e rest full found n (b, q, (to, from)) = (
    b,
    q,
    (
      (λ h. follows k e full found (to h)),
      (λ a.
          let (e', _, found', why) = anchor_of k a refl in
          let same : e' ≡ e = cc in
          elim why [
            | inl f ↦ absurd (true≢false (sym (subst (λ z. has fired z.ref ≡ true) same f) ∙ n))
            | inr on ↦ from (subst (λ (z : OntologyEvent). AnchorFired z.coupled_to) same on)
          ]),
    ),
  )

  -- One more key was seen.
  Passed-append :
      (seen : List String) (k : String) (e : OntologyEvent)
      → event_by_key events k ≡ some e
      → has fired e.ref ≡ false
      → Passed seen (some k)
      → Passed (seen ++ k ∷ []) e.coupled_to
  unfolding Passed
  Passed-append seen k e found n p x m e' found' = elim (mem-append seen m) [
    | inl old ↦
        let (idle, next) = p x old e' found' in
        (
          idle,
          λ y on. elim (next y on) [
            | inl there ↦ inl (mem-has _ _ (mem-append_left (k ∷ []) (has-mem seen y there)))
            | inr is_k ↦
                let same : y ≡ k = cc in inl (mem-has _ _ (mem-append_right seen (Memᴰ.head same)))
          ],
        )
    | inr (Memᴰ.head q) ↦
        let at_k : event_by_key events k ≡ some e' =
          subst (λ z. event_by_key events z ≡ some e') q found' in
        let same : e ≡ e' = cc in
        (
          subst (λ z. has fired z.ref ≡ false) same n,
          λ y on. inr (subst (λ (z : OntologyEvent). z.coupled_to ≡ some y) (sym same) on),
        )
    | inr (Memᴰ.tail m') ↦ elim m' [ ]
  ]

  known-append :
      (seen : List String) (k : String) (e : OntologyEvent)
      → event_by_key events k ≡ some e
      → All (λ z. Memᴰ z (keys_of events)) seen
      → All (λ z. Memᴰ z (keys_of events)) (seen ++ k ∷ [])
  known-append seen k e found known x m = elim (mem-append seen m) [
    | inl old ↦ known x old
    | inr (Memᴰ.head q) ↦
        subst (λ z. Memᴰ z (keys_of events)) (sym q) (event_by_key-mem events k e found)
    | inr (Memᴰ.tail n) ↦ elim n [ ]
  ]

  walk-Decides :
      (fuel : ℕ) (seen : List String) (next : Option String)
      → Distinct seen
      → All (λ k. Memᴰ k (keys_of events)) seen
      → suc (suc (length events)) ≤ fuel + length seen
      → Passed seen next
      → Decides (satisfied_along events fired fuel seen next) next
  unfolding satisfied_along fired_or Decides
  walk-Decides zero seen next d known h p = absurd (
      omega
        (arith, h, length-Distinct (keys_of events) seen d known, length-map events (λ e. e.key)))
  walk-Decides (suc fuel) seen none d known h p = no-Decides none (no_anchor refl)
  walk-Decides (suc fuel) seen (some k) d known h p = elim (Bool-cases (k == "")) [
    | inl empty ↦
        rw empty (no-Decides (some k) (λ a. true≢false (sym empty ∙ (anchor_of k a refl).1)))
    | inr full ↦ elim (Bool-cases (has seen k)) [
      | inl again ↦
          rw (full, again) (no-Decides (some k) (λ a. none_in_cycle seen k p again a k refl again))
      | inr new ↦ elim (Option-cases (event_by_key events k)) [
        | inl missing ↦
            rw
              (
                full,
                new,
                missing,
                past_the_end fuel (seen ++ k ∷ []) (
                    omega (
                      arith,
                      h,
                      length-Distinct (keys_of events) seen d known,
                      length-map events (λ e. e.key),
                    )),
              )
              (no-Decides (some k)
                (λ a. let (e, _, found, _) = anchor_of k a refl in some≢none (sym found ∙ missing)))
        | inr (e, found) ↦ elim (Bool-cases (has fired e.ref)) [
          | inl f ↦
              rw (full, new, found, f) (true, refl, ((λ _. fires k e full found f), (λ _. refl)))
          | inr n ↦
              rw (full, new, found, n)
                (on-Decides k e _ full found n (
                  walk-Decides fuel (seen ++ k ∷ []) e.coupled_to (Distinct-append seen k d new)
                    (known-append seen k e found known)
                    (omega (arith, h, length-append seen (k ∷ [])))
                    (Passed-append seen k e found n p)))
        ]
      ]
    ]
  ]

  -- For every key, the walk along `coupledTo` gives an answer within the rounds that it is given, and the
  -- answer is true exactly when the event of the key, or one that it comes to along `coupledTo`, has
  -- fired.
  pub pred_satisfied_iff :
      (key : String)
      → (satisfied_along events fired (suc (suc (length events))) [] (some key)
          ≡ some (pred_satisfied events fired key))
        × ((pred_satisfied events fired key ≡ true) ↔ AnchorFired (some key))
  unfolding pred_satisfied Decides Passed
  pred_satisfied_iff key =
      let (b, q, (to, from)) =
        walk-Decides (suc (suc (length events))) [] (some key) tt (λ x m. elim m [ ]) (omega arith)
          (λ x m. elim m [ ]) in
      rw q (refl, (to, from))
