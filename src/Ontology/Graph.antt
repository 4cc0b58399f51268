-- ===== src/Ontology/Graph.antt =====
-- What the maps of the graph hold: how often an event is a successor of another.
use qlerify_live.Prelude.{
  ℕ, suc, String, ◌+◌, ◌≤◌, ◌≡◌, refl, sym, ap, ◌∙◌, true, false, some, List, [], ◌∷◌, ◌++◌, map,
  ◌==◌, string_eq, if◌then◌else◌, Map, get, put, get-put, arith, eq_iff, Memᴰ, has, any, mem-has,
  true≢false, eq_of_beq, Exists, inl, inr, mem-map, subst, Bool-cases,
}
use qlerify_live.Prelude.Distinct.{Distinct}
use qlerify_live.Ontology.{
  OntologyEvent, index_by, list_or_empty, add_successors, link_events, successors, successors_of,
}

unfoldable pub count : String → List String → ℕ
count x [] = 0
count x (y ∷ ys) = if y == x then suc (count x ys) else count x ys

pub count-append : (x : String) (ys zs : List String) → count x (ys ++ zs) ≡ count x ys + count x zs
unfolding count
count-append x [] zs = omega arith
count-append x (y ∷ ys) zs = ground (arith, count-append x ys zs)

pub mem-count : (x : String) (ys : List String) → Memᴰ x ys → 1 ≤ count x ys
unfolding count
mem-count x [] m = elim m [ ]
mem-count x (y ∷ ys) (Memᴰ.head q) = ground (arith, eq_iff y x, q)
mem-count x (y ∷ ys) (Memᴰ.tail m) = ground (arith, mem-count x ys m)

count-mem : (x : String) (ys : List String) → 1 ≤ count x ys → Memᴰ x ys
unfolding count
count-mem x [] h = absurd (omega (arith, h))
count-mem x (y ∷ ys) h = elim (Bool-cases (y == x)) [
  | inl q ↦ Memᴰ.head (sym (eq_of_beq y x q))
  | inr q ↦ Memᴰ.tail (count-mem x ys (ground arith))
]

abbrev pub list_at : Map (List String) → String → List String
list_at m k = list_or_empty (get m k)

list_at-put :
    (m : Map (List String)) (p : String) (keys : List String) (k : String)
    → list_at (put m p keys) k ≡ (if p == k then keys else list_at m k)
list_at-put m p keys k = ground (arith, eq_iff p k, get-put m p keys k)

count-push :
    (m : Map (List String)) (p key k y : String)
    → count y (list_at (put m p (list_at m p ++ key ∷ [])) k)
      ≡ count y (list_at m k) + (if p == k then if key == y then 1 else 0 else 0)
unfolding count
count-push m p key k y = grind (
  arith,
  eq_iff p k,
  eq_iff key y,
  list_at-put m p (list_at m p ++ key ∷ []) k,
  count-append y (list_at m p) (key ∷ []),
)

count-add_successors :
    (key : String) (predecessors : List String) (m : Map (List String)) (k y : String)
    → count y (list_at (add_successors key predecessors m) k)
      ≡ count y (list_at m k) + (if key == y then count k predecessors else 0)
unfolding add_successors count
count-add_successors key [] m k y = ground arith
count-add_successors key (p ∷ ps) m k y = ground (
  arith,
  count-add_successors key ps (put m p (list_at m p ++ key ∷ [])) k y,
  count-push m p key k y,
)

-- How often the events with key `y` name `k` as a predecessor.
edges : List OntologyEvent → String → String → ℕ
unfolding count
edges [] k y = 0
edges (e ∷ events) k y = (if e.key == y then count k e.predecessors else 0) + edges events k y

count-link_events :
    (events : List OntologyEvent) (m : Map (List String)) (k y : String)
    → count y (list_at (link_events events m) k) ≡ count y (list_at m k) + edges events k y
unfolding link_events edges
count-link_events [] m k y = omega arith
count-link_events (e ∷ events) m k y = omega (
  arith,
  count-link_events events (add_successors e.key e.predecessors m) k y,
  count-add_successors e.key e.predecessors m k y,
)

index_by-empty :
    (events : List OntologyEvent) (m : Map (List String)) (k : String)
    → list_at m k ≡ []
    → list_at (index_by (λ e. []) m events) k ≡ []
unfolding index_by
index_by-empty [] m k h = h
index_by-empty (e ∷ events) m k h =
    index_by-empty events (put m e.key []) k (ground (arith, list_at-put m e.key [] k, h))

count-successors_of :
    (events : List OntologyEvent) (k y : String)
    → count y (successors_of events k) ≡ edges events k y
unfolding successors_of successors count get
count-successors_of events k y = omega (
  arith,
  count-link_events events (index_by (λ e. []) [] events) k y,
  ap (count y) (index_by-empty events [] k refl),
)

edges-none :
    (events : List OntologyEvent) (k y : String)
    → has (map (λ e. e.key) events) y ≡ false
    → edges events k y ≡ 0
unfolding edges has any
edges-none [] k y h = refl
edges-none (e ∷ events) k y h = ground (arith, edges-none events k y)

edges-mem :
    (events : List OntologyEvent) (k : String) (e : OntologyEvent)
    → Distinct (map (λ e. e.key) events)
    → Memᴰ e events
    → edges events k e.key ≡ count k e.predecessors
unfolding edges
edges-mem [] k e d m = elim m [ ]
edges-mem (f ∷ events) k e (n, d) (Memᴰ.head q) =
    subst (λ x. edges (f ∷ events) k x.key ≡ count k x.predecessors) (sym q)
      (ground (arith, eq_iff f.key f.key, edges-none events k f.key n))
edges-mem (f ∷ events) k e (n, d) (Memᴰ.tail m) = ground (arith, edges-mem events k e d m, other)
  where
    other : (f.key == e.key) ≡ true → ⊥
    other q = true≢false (
        sym (mem-has (map (λ e. e.key) events) e.key (mem-map (λ e. e.key) m))
        ∙ (ap (has (map (λ e. e.key) events)) (sym (eq_of_beq f.key e.key q)) ∙ n))

edges-Exists :
    (events : List OntologyEvent) (k y : String)
    → 1 ≤ edges events k y
    → Exists (λ e. e.key ≡ y) events
unfolding edges
edges-Exists [] k y h = absurd (omega (arith, h))
edges-Exists (e ∷ events) k y h = elim (Bool-cases (e.key == y)) [
  | inl q ↦ (e, Memᴰ.head refl, eq_of_beq e.key y q)
  | inr q ↦ let (f, m, p) = edges-Exists events k y (ground arith) in (f, Memᴰ.tail m, p)
]

-- An event is a successor as often as it names the other as a predecessor.
pub count-successors_of_event :
    (events : List OntologyEvent) (k : String) (e : OntologyEvent)
    → Distinct (map (λ e. e.key) events)
    → Memᴰ e events
    → count e.key (successors_of events k) ≡ count k e.predecessors
count-successors_of_event events k e d m =
    count-successors_of events k e.key ∙ edges-mem events k e d m

pub successors_of-Exists :
    (events : List OntologyEvent) (k y : String)
    → Memᴰ y (successors_of events k)
    → Exists (λ e. e.key ≡ y) events
successors_of-Exists events k y m =
    edges-Exists events k y
      (omega (arith, mem-count y (successors_of events k) m, count-successors_of events k y))

-- An event that is a successor names the other as a predecessor.
pub successors_of-predecessor :
    (events : List OntologyEvent) (k : String) (e : OntologyEvent)
    → Distinct (map (λ e. e.key) events)
    → Memᴰ e events
    → Memᴰ e.key (successors_of events k)
    → Memᴰ k e.predecessors
successors_of-predecessor events k e d m n = count-mem k e.predecessors (
    omega
      (arith, mem-count e.key (successors_of events k) n, count-successors_of_event events k e d m))

pub index_by-get_other {ℓ} :
    {V : Type ℓ} (value : OntologyEvent → V) (events : List OntologyEvent) (m : Map V) (k : String)
    → has (map (λ e. e.key) events) k ≡ false
    → get (index_by value m events) k ≡ get m k
unfolding index_by has any
index_by-get_other value [] m k h = refl
index_by-get_other value (e ∷ events) m k h =
    ground (
      arith,
      index_by-get_other value events (put m e.key (value e)) k,
      get-put m e.key (value e) k,
    )

pub get-index_by {ℓ} :
    {V : Type ℓ} (value : OntologyEvent → V) (events : List OntologyEvent) (m : Map V)
    (e : OntologyEvent)
    → Distinct (map (λ e. e.key) events)
    → Memᴰ e events
    → get (index_by value m events) e.key ≡ some (value e)
unfolding index_by
get-index_by value [] m e d k = elim k [ ]
get-index_by value (f ∷ events) m e (n, d) (Memᴰ.head q) =
    subst (λ x. get (index_by value m (f ∷ events)) x.key ≡ some (value x)) (sym q)
      (index_by-get_other value events (put m f.key (value f)) f.key n
        ∙ ground (arith, eq_iff f.key f.key, get-put m f.key (value f) f.key))
get-index_by value (f ∷ events) m e (n, d) (Memᴰ.tail k) =
    get-index_by value events (put m f.key (value f)) e d k
