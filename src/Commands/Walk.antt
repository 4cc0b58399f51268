-- ===== src/Commands/Walk.antt =====
-- `isCreateEvent` on its walk over the predecessors.
use qlerify_live.Prelude.{
  ℕ, ◌+◌, ◌≤◌, String, true, false, some, List, [], ◌∷◌, ◌≡◌, refl, sym, ap, ◌∙◌, ◌==◌, string_eq,
  if◌then◌else◌, Map, get, put, get-put, arith, has, length, Memᴰ, Bool-cases, Option-cases, inl,
  inr, ◌⊎◌, mem-has, eq_of_beq, any, mem-cons,
}
use qlerify_live.Ontology.{OntologyEvent, index_by, event_by_key}
use qlerify_live.Ontology.Schema.{Model}
use qlerify_live.Commands.{push_all, count_predecessors, event_predecessors}

-- `k` is in the list, or comes before something that does.
pub data Ancestor (ont : Model) (start : List String) : String → Type 0 where
  listed : (k : String) → Memᴰ k start → Ancestor ont start k
  earlier :
      (k p : String)
      → Ancestor ont start k
      → Memᴰ p (event_predecessors (event_by_key ont.events k))
      → Ancestor ont start p

pub mem-push_all_left :
    (ps stack : List String) {x : String} → Memᴰ x stack → Memᴰ x (push_all ps stack)
mem-push_all_left [] stack m = m
mem-push_all_left (p ∷ ps) stack m = mem-push_all_left ps (p ∷ stack) (Memᴰ.tail m)

pub mem-push_all_right :
    (ps stack : List String) {x : String} → Memᴰ x ps → Memᴰ x (push_all ps stack)
mem-push_all_right [] stack m = elim m [ ]
mem-push_all_right (p ∷ ps) stack (Memᴰ.head e) = mem-push_all_left ps (p ∷ stack) (Memᴰ.head e)
mem-push_all_right (p ∷ ps) stack (Memᴰ.tail m) = mem-push_all_right ps (p ∷ stack) m

pub mem-push_all :
    (ps stack : List String) {x : String} → Memᴰ x (push_all ps stack) → Memᴰ x ps ⊎ Memᴰ x stack
mem-push_all [] stack m = inr m
mem-push_all (p ∷ ps) stack m = elim (mem-push_all ps (p ∷ stack) m) [
  | inl in_ps ↦ inl (Memᴰ.tail in_ps)
  | inr in_stack ↦ elim (mem-cons in_stack) [ inl e ↦ inl (Memᴰ.head e) | inr t ↦ inr t ]
]

pub length-push_all :
    (ps stack : List String) → length (push_all ps stack) ≡ length ps + length stack
length-push_all [] stack = omega arith
length-push_all (p ∷ ps) stack = omega (arith, length-push_all ps (p ∷ stack))

pub Ancestor-mono :
    {ont : Model} {from to : List String}
    → ((x : String) → Memᴰ x from → Ancestor ont to x)
    → (k : String) → Ancestor ont from k
    → Ancestor ont to k
Ancestor-mono h k (listed _ m) = h k m
Ancestor-mono h p (earlier k _ a m) = earlier k p (Ancestor-mono h k a) m

-- The predecessors of the events that are not seen yet.
abbrev pub unseen : List String → List OntologyEvent → ℕ
unseen seen [] = 0
unseen seen (e ∷ events) =
    (if has seen e.key then 0 else length e.predecessors) + unseen seen events

unseen_le :
    (k : String) (seen : List String) (events : List OntologyEvent)
    → unseen (k ∷ seen) events ≤ unseen seen events
unfolding has any
unseen_le k seen [] = omega arith
unseen_le k seen (e ∷ events) = ground (arith, unseen_le k seen events)

has-cons_self : (k : String) (seen : List String) (x : String) → x ≡ k → has (k ∷ seen) x ≡ true
has-cons_self k seen x h = mem-has (k ∷ seen) x (Memᴰ.head h)

unseen_head :
    (k : String) (seen : List String) (events : List OntologyEvent) (x : OntologyEvent) {count : ℕ}
    → x.key ≡ k
    → has seen k ≡ false
    → count ≡ length x.predecessors
    → unseen (k ∷ seen) (x ∷ events) + count ≤ unseen seen (x ∷ events)
unseen_head k seen events x h n c =
    ground (arith, unseen_le k seen events, has-cons_self k seen x.key h, ap (has seen) h)

unseen-cons :
    (k : String) (seen : List String) (events : List OntologyEvent) (e : OntologyEvent)
    → Memᴰ e events
    → e.key ≡ k
    → has seen k ≡ false
    → unseen (k ∷ seen) events + length e.predecessors ≤ unseen seen events
unfolding has any
unseen-cons k seen [] e m h n = elim m [ ]
unseen-cons k seen (x ∷ events) e (Memᴰ.head q) h n =
    unseen_head k seen events x (ap (λ z. z.key) (sym q) ∙ h) n (ap (λ z. length z.predecessors) q)
unseen-cons k seen (x ∷ events) e (Memᴰ.tail m) h n =
    ground (arith, unseen-cons k seen events e m h n)

pub unseen_nil : (events : List OntologyEvent) → unseen [] events ≡ count_predecessors events
unfolding has any
unseen_nil [] = refl
unseen_nil (e ∷ events) = omega (arith, unseen_nil events)

some_inj : {x e : OntologyEvent} → some x ≡ some e → x ≡ e
some_inj h = cc

put-some :
    (m : Map OntologyEvent) (k : String) (x : OntologyEvent) (events : List OntologyEvent)
    (e : OntologyEvent)
    → get (put m x.key x) k ≡ some e
    → (get m k ≡ some e) ⊎ (Memᴰ e (x ∷ events) × (e.key ≡ k))
put-some m k x events e found = elim (Bool-cases (x.key == k)) [
  | inl q ↦
      let same =
        some_inj (sym (get-put m x.key x k ∙ ap (λ b. if b then some x else get m k) q) ∙ found) in
      inr (Memᴰ.head (sym same), ap (λ z. z.key) (sym same) ∙ eq_of_beq x.key k q)
  | inr q ↦ inl (sym (get-put m x.key x k ∙ ap (λ b. if b then some x else get m k) q) ∙ found)
]

index_by-some :
    (events : List OntologyEvent) (m : Map OntologyEvent) (k : String) (e : OntologyEvent)
    → get (index_by (λ x. x) m events) k ≡ some e
    → (get m k ≡ some e) ⊎ (Memᴰ e events × (e.key ≡ k))
unfolding index_by
index_by-some [] m k e h = inl h
index_by-some (x ∷ events) m k e h = elim (index_by-some events (put m x.key x) k e h) [
  | inl found ↦ put-some m k x events e found
  | inr (later, q) ↦ inr (Memᴰ.tail later, q)
]

pub event_by_key-some :
    (events : List OntologyEvent) (k : String) (e : OntologyEvent)
    → event_by_key events k ≡ some e
    → Memᴰ e events × (e.key ≡ k)
unfolding event_by_key
event_by_key-some events k e h = elim (index_by-some events [] k e h) [
  | inl in_nil ↦ absurd (none≢some in_nil)
  | inr found ↦ found
]
  where
    none≢some : ¬ (get [] k ≡ some e)
    none≢some q = cc

-- A round costs at most what the key that it pops frees.
pub unseen_pop :
    (ont : Model) (k : String) (seen stack : List String)
    → has seen k ≡ false
    → length (push_all (event_predecessors (event_by_key ont.events k)) stack)
        + unseen (k ∷ seen) ont.events
      ≤ length stack + unseen seen ont.events
unseen_pop ont k seen stack n = elim (Option-cases (event_by_key ont.events k)) [
  | inl e ↦ simp e (omega (arith, unseen_le k seen ont.events))
  | inr (e, q) ↦
      let (m, h) = event_by_key-some ont.events k e q in
      simp q
        (omega (arith, length-push_all e.predecessors stack, unseen-cons k seen ont.events e m h n))
]
