-- ===== src/Audit/Tamper.antt =====
-- Tampering is evident: the last hash of a verified log fixes all that was hashed.
use Prim.Native.String.{count}
use text.Mathlib.TextLemmas.{append_inj}
use qlerify_live.Prelude.{
  ℕ, suc, String, ◌≡◌, refl, sym, ap, subst, subst₂, ◌∙◌, ◌⊎◌, inl, inr, true, Option, none, some,
  List, [], ◌∷◌, map, Memᴰ, arith, length, template,
}
use qlerify_live.Audit.{
  ChainRow, AuditEvent, chain_text, stream_of, last_of, last_hash, hash_row, verify_audit_chain,
}
use qlerify_live.Audit.Chain.{IsChain, verify_audit_chain_iff}

abbrev pub texts : List AuditEvent → List String
texts rows = map (λ e. chain_text e.row) rows

-- Two links that a chain can have at the same place: none, or digests of one length.
SameShape : Option String → Option String → Type 0
SameShape a b =
    ((a ≡ none) × (b ≡ none))
    ⊎ ((x : String) × (y : String) × (a ≡ some x) × (b ≡ some y) × (count x ≡ count y))

link-eq :
    (r s : ChainRow)
    → SameShape r.prev_hash s.prev_hash
    → chain_text r ≡ chain_text s
    → r.prev_hash ≡ s.prev_hash
unfolding SameShape chain_text
link-eq r s (inl (a, b)) e = a ∙ sym b
link-eq r s (inr (x, y, a, b, n)) e =
    a ∙ ap some (append_inj {s₁ = x} {s₂ = y} (unfold template in (rw (a, b) at e)) n).0 ∙ sym b

-- No two different texts among those that are hashed for the rows have one digest.
abbrev pub NoCollision : (String → String) → List AuditEvent → List AuditEvent → Type 0
NoCollision sha256 rows rows' =
    (r : AuditEvent)
    → Memᴰ r rows
    → (s : AuditEvent) → Memᴰ s rows'
    → sha256 (chain_text r.row) ≡ sha256 (chain_text s.row)
    → chain_text r.row ≡ chain_text s.row

module _ (sha256 : String → String)
    (digests : (s t : String) → count (sha256 s) ≡ count (sha256 t)) where
  digest-SameShape :
      (r s : AuditEvent)
      → hash_row sha256 r.row ≡ r.this_hash
      → hash_row sha256 s.row ≡ s.this_hash
      → SameShape (some r.this_hash) (some s.this_hash)
  unfolding SameShape hash_row
  digest-SameShape r s a b =
      inr (r.this_hash, s.this_hash, refl, refl, ap count (sym a) ∙ digests _ _ ∙ ap count b)

  head-eq :
      (r s : AuditEvent)
      → SameShape r.row.prev_hash s.row.prev_hash
      → hash_row sha256 r.row ≡ r.this_hash
      → hash_row sha256 s.row ≡ s.this_hash
      → r.this_hash ≡ s.this_hash
      → (sha256 (chain_text r.row) ≡ sha256 (chain_text s.row)
          → chain_text r.row ≡ chain_text s.row)
      → (chain_text r.row ≡ chain_text s.row) × (r.row.prev_hash ≡ s.row.prev_hash)
  unfolding hash_row
  head-eq r s shape own own' e safe =
      let text = safe (own ∙ e ∙ sym own') in (text, link-eq r.row s.row shape text)

  -- Two chains of one length with one last hash hash the same texts.
  chains-eq :
      (i : ℕ) (r : AuditEvent) (rows : List AuditEvent) (s : AuditEvent) (rows' : List AuditEvent)
      → SameShape r.row.prev_hash s.row.prev_hash
      → IsChain sha256 i r.row.prev_hash (r ∷ rows)
      → IsChain sha256 i s.row.prev_hash (s ∷ rows')
      → length rows ≡ length rows'
      → last_hash (last_of (r ∷ rows)) ≡ last_hash (last_of (s ∷ rows'))
      → NoCollision sha256 (r ∷ rows) (s ∷ rows')
      → (texts (r ∷ rows) ≡ texts (s ∷ rows')) × (r.row.prev_hash ≡ s.row.prev_hash)
  unfolding last_of
  chains-eq i r [] s [] shape (_, _, own, _) (_, _, own', _) n e safe =
      let (text, link) =
        head-eq r s shape own own' (cc) (safe r (Memᴰ.head refl) s (Memᴰ.head refl)) in
      (ap (λ x. x ∷ []) text, link)
  chains-eq i r [] s (s' ∷ rows') shape h h' n e safe = absurd (omega arith)
  chains-eq i r (r' ∷ rows) s [] shape h h' n e safe = absurd (omega arith)
  chains-eq i r (r' ∷ rows) s (s' ∷ rows') shape (_, _, own, rest) (_, _, own', rest') n e safe =
      let (later, link) =
        chains-eq (suc i) r' rows s' rows'
          (subst₂ SameShape (sym rest.1) (sym rest'.1) (digest-SameShape r s own own'))
          (subst (λ p. IsChain sha256 (suc i) p (r' ∷ rows)) (sym rest.1) rest)
          (subst (λ p. IsChain sha256 (suc i) p (s' ∷ rows')) (sym rest'.1) rest') (omega arith) e
          (λ x m y k. safe x (Memᴰ.tail m) y (Memᴰ.tail k)) in
      let same : some r.this_hash ≡ some s.this_hash = sym rest.1 ∙ link ∙ rest'.1 in
      let (text, first) =
        head-eq r s shape own own' (cc) (safe r (Memᴰ.head refl) s (Memᴰ.head refl)) in
      (cc, first)

  streams-eq :
      (rows rows' : List AuditEvent)
      → IsChain sha256 0 none rows
      → IsChain sha256 0 none rows'
      → length rows ≡ length rows'
      → last_hash (last_of rows) ≡ last_hash (last_of rows')
      → NoCollision sha256 rows rows'
      → texts rows ≡ texts rows'
  unfolding SameShape
  streams-eq [] [] h h' n e safe = refl
  streams-eq [] (s ∷ rows') h h' n e safe = absurd (omega arith)
  streams-eq (r ∷ rows) [] h h' n e safe = absurd (omega arith)
  streams-eq (r ∷ rows) (s ∷ rows') h h' n e safe =
      (chains-eq 0 r rows s rows' (inl (h.1, h'.1))
        (subst (λ p. IsChain sha256 0 p (r ∷ rows)) (sym h.1) h)
        (subst (λ p. IsChain sha256 0 p (s ∷ rows')) (sym h'.1) h') (omega arith) e safe).0

-- Tampering is evident. Let digests have one length and no two different texts among those hashed for
-- the two logs have one digest. If two tables both verify for an organisation, with as many rows and
-- the same last hash, then what is hashed of their rows (every field but the id and the actor kind,
-- and the hash of the row before) is the same, row by row.
pub verify-texts_eq :
    (sha256 : String → String) (organization_id : String) (events events' : List AuditEvent)
    → ((s t : String) → count (sha256 s) ≡ count (sha256 t))
    → NoCollision sha256 (stream_of organization_id events) (stream_of organization_id events')
    → (verify_audit_chain sha256 organization_id events).ok ≡ true
    → (verify_audit_chain sha256 organization_id events').ok ≡ true
    → length (stream_of organization_id events) ≡ length (stream_of organization_id events')
    → last_hash (last_of (stream_of organization_id events))
      ≡ last_hash (last_of (stream_of organization_id events'))
    → texts (stream_of organization_id events) ≡ texts (stream_of organization_id events')
verify-texts_eq sha256 org events events' digests safe ok ok' n e =
    streams-eq sha256 digests (stream_of org events) (stream_of org events')
      ((verify_audit_chain_iff sha256 org events).0 ok)
      ((verify_audit_chain_iff sha256 org events').0 ok') n e safe
