-- ===== src/ReadCache/Slices.antt =====
-- `invalidateReads` and the reads that come after it.
use Prim.Native.String
use text.Mathlib.Text.{starts_with}
use text.Mathlib.TextPositions.{starts_with-append}
use text.Mathlib.TextEquality.{starts_with_iff}
use text.Mathlib.TextLemmas.{append_assoc}
use qlerify_live.Prelude.{
  ℕ, String, ◌≡◌, refl, sym, subst, ap, ◌∙◌, Bool, true, false, Option, none, some, List, [], ◌∷◌,
  Memᴰ, any_of_mem, if◌then◌else◌, template, Map, get, eq_iff, any, ◌==◌, string_eq, inl, inr,
  Bool-cases,
}
use qlerify_live.Tenancy.{RequestContext, given}
use qlerify_live.ReadCache.{
  Entry, sep, org_scope, scope_prefix, lookup, serve, serve_at, invalidate_org, scoped,
  stale_prefixes, drop_keys, invalidate_reads, invalidate_current_reads, cached_read,
  cached_org_read, read_key, org_read_key,
}

module _ {A : Type 0} where
  get-drop_keys :
      (prefixes : List String) (store : Map (Entry A)) (key : String)
      → any (λ p. starts_with key p) prefixes ≡ true
      → get (drop_keys prefixes store) key ≡ none
  unfolding get drop_keys
  get-drop_keys prefixes [] key h = refl
  get-drop_keys prefixes ((k, e) ∷ store) key h = elim (Bool-cases (k == key)) [
    | inl q ↦
        let same = (eq_iff k key).0 q in
        let stale : any (λ p. starts_with k p) prefixes ≡ true =
          subst (λ t. any (λ p. starts_with t p) prefixes ≡ true) (sym same) h in
        rw stale (get-drop_keys prefixes store key h)
    | inr q ↦ elim (Bool-cases (any (λ p. starts_with k p) prefixes)) [
      | inl b ↦ rw b (get-drop_keys prefixes store key h)
      | inr b ↦ rw (b, q) (get-drop_keys prefixes store key h)
    ]
  ]

  serve-missing :
      (ttl : ℕ) (store : Map (Entry A)) (key : String) (computed : A) (now ready : ℕ)
      → get store key ≡ none
      → (serve ttl store key computed now ready).1 ≡ computed
  unfolding serve lookup
  serve-missing ttl store key computed now ready h = rw h refl

-- A key of a slice starts with the slice's prefix.
slice_prefix :
    (prefix request : String) → starts_with (template (prefix ∷ request ∷ [])) prefix ≡ true
unfolding template
slice_prefix prefix request = starts_with-append prefix _

org_prefix :
    (org_id workflow_id request : String)
    → starts_with
        (template (scope_prefix org_id workflow_id ∷ request ∷ []))
        (template (org_id ∷ sep ∷ []))
      ≡ true
unfolding template scope_prefix
org_prefix org_id workflow_id request =
    let rest = String.◌++◌ request "" in
    (starts_with_iff _ _).1 (
      String.◌++◌ workflow_id (String.◌++◌ sep rest),
      append_assoc org_id sep _
          ∙ (ap (λ t. String.◌++◌ org_id (String.◌++◌ sep t))
                (sym (append_assoc workflow_id sep rest))
              ∙ (ap (String.◌++◌ org_id) (sym (append_assoc sep (String.◌++◌ workflow_id sep) rest))
                  ∙ sym
                      (append_assoc org_id (String.◌++◌ sep (String.◌++◌ workflow_id sep)) rest))),
    )

module _ {A : Type 0} (ttl : ℕ) (request : String) (store : Map (Entry A)) (computed : A)
    (now ready : ℕ) where
  read_of_slice :
      (org_id workflow_id : Option String)
      → (serve_at
          (scoped org_id workflow_id request)
          ttl
          (invalidate_org org_id workflow_id store)
          computed
          now
          ready).1
        ≡ computed
  unfolding stale_prefixes
  read_of_slice none _ = refl
  read_of_slice (some org_id) none = refl
  read_of_slice (some org_id) (some workflow_id) = serve-missing ttl _ _ computed now ready (
      get-drop_keys (stale_prefixes org_id (some workflow_id)) store _ (
        any_of_mem _ _ (Memᴰ.tail (Memᴰ.head refl))
          (slice_prefix (scope_prefix org_id workflow_id) request)))

  read_of_org :
      (org_id workflow_id : Option String)
      → (serve_at
          (scoped org_id (some org_scope) request)
          ttl
          (invalidate_org org_id workflow_id store)
          computed
          now
          ready).1
        ≡ computed
  unfolding stale_prefixes
  read_of_org none _ = refl
  read_of_org (some org_id) none = serve-missing ttl _ _ computed now ready (
      get-drop_keys (stale_prefixes org_id none) store _
        (any_of_mem _ _ (Memᴰ.head refl) (org_prefix org_id org_scope request)))
  read_of_org (some org_id) (some workflow_id) = serve-missing ttl _ _ computed now ready (
      get-drop_keys (stale_prefixes org_id (some workflow_id)) store _
        (any_of_mem _ _ (Memᴰ.head refl) (slice_prefix (scope_prefix org_id org_scope) request)))

  read_after :
      (writer reader : RequestContext)
      → writer.organization_id ≡ reader.organization_id
      → writer.workflow_id ≡ reader.workflow_id
      → (serve_at
          (read_key (some reader) request)
          ttl
          (invalidate_current_reads (some writer) store)
          computed
          now
          ready).1
        ≡ computed
  unfolding read_key invalidate_current_reads invalidate_reads
  read_after writer reader h k =
      rw (h, k) (read_of_slice (given reader.organization_id) (given reader.workflow_id))

  if_read :
      (on : Bool) (key : Option String) (after : Map (Entry A))
      → (serve_at key ttl after computed now ready).1 ≡ computed
      → (serve_at (if on then key else none) ttl after computed now ready).1 ≡ computed
  if_read true key after h = h
  if_read false key after h = refl

  org_read_after :
      (writer reader : RequestContext)
      → writer.organization_id ≡ reader.organization_id
      → (serve_at
          (org_read_key (some reader) request)
          ttl
          (invalidate_current_reads (some writer) store)
          computed
          now
          ready).1
        ≡ computed
  unfolding org_read_key invalidate_current_reads invalidate_reads
  org_read_after writer reader h =
      rw h (read_of_org (given reader.organization_id) (given writer.workflow_id))

-- Whatever was cached, after the invalidation by a request, a read for the same organisation and
-- workflow, and an org-wide read for the same organisation from any workflow, give what is computed
-- afresh.
pub cached_read-invalidate_current_reads :
    {A : Type 0} (on : Bool) (ttl : ℕ) (writer reader other : RequestContext) (request : String)
    (store : Map (Entry A)) (computed : A) (now ready : ℕ)
    → writer.organization_id ≡ reader.organization_id
    → writer.workflow_id ≡ reader.workflow_id
    → writer.organization_id ≡ other.organization_id
    → ((cached_read on ttl
          (some reader)
          request
          (invalidate_current_reads (some writer) store)
          computed
          now
          ready).1
        ≡ computed)
      × ((cached_org_read on ttl
            (some other)
            request
            (invalidate_current_reads (some writer) store)
            computed
            now
            ready).1
          ≡ computed)
unfolding cached_read cached_org_read
cached_read-invalidate_current_reads on ttl writer reader other request store computed now ready h k
      o =
    let after = invalidate_current_reads (some writer) store in
    (
      if_read ttl request store computed now ready on (read_key (some reader) request) after
          (read_after ttl request store computed now ready writer reader h k),
      if_read ttl request store computed now ready on (org_read_key (some other) request) after
          (org_read_after ttl request store computed now ready writer other o),
    )
