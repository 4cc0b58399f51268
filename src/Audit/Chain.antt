-- ===== src/Audit/Chain.antt =====
-- What `verifyAuditChain` accepts.
use qlerify_live.Prelude.{
  ℕ, suc, String, ◌+◌, ◌<◌, ◌≡◌, refl, sym, ap, ◌∙◌, ◌↔◌, inl, inr, true, Option, none, some, List,
  [], ◌∷◌, ◌++◌, ◌==◌, string_eq, option_eq, nat_eq, arith, Bool-cases, All, length, eq_of_beq,
  beq_of_eq, mem-cons, true≢false,
}
use qlerify_live.Audit.{AuditEvent, stream_of, last_of, hash_row, verify_from, verify_audit_chain}

pub last_of-cons :
    (r : AuditEvent) (rows : List AuditEvent) {l : AuditEvent}
    → last_of rows ≡ some l
    → last_of (r ∷ rows) ≡ some l
unfolding last_of
last_of-cons r [] q = cc
last_of-cons r (s ∷ rows) q = q

module _ (sha256 : String → String) where
  -- The rows carry the indices from `i` on, each the hash of the row before it and its own hash.
  abbrev pub IsChain : ℕ → Option String → List AuditEvent → Type 0
  IsChain i prev_hash [] = Unit
  IsChain i prev_hash (r ∷ rows) =
      (r.row.seq ≡ i)
      × (r.row.prev_hash ≡ prev_hash)
      × (hash_row sha256 r.row ≡ r.this_hash)
      × IsChain (suc i) (some r.this_hash) rows

  verify-IsChain :
      (n i : ℕ) (prev_hash : Option String) (rows : List AuditEvent)
      → (verify_from sha256 n i prev_hash rows).ok ≡ true
      → IsChain i prev_hash rows
  unfolding verify_from
  verify-IsChain n i prev_hash [] h = tt
  verify-IsChain n i prev_hash (r ∷ rows) h = elim (Bool-cases (r.row.seq == i)) [
    | inr e ↦ absurd (true≢false (sym h ∙ (ground arith)))
    | inl index ↦ elim (Bool-cases (r.row.prev_hash == prev_hash)) [
      | inr e ↦ absurd (true≢false (sym h ∙ (ground arith)))
      | inl link ↦ elim (Bool-cases (hash_row sha256 r.row == r.this_hash)) [
        | inr e ↦ absurd (true≢false (sym h ∙ (ground arith)))
        | inl same ↦ (
          eq_of_beq _ _ index,
          eq_of_beq _ _ link,
          eq_of_beq _ _ same,
          verify-IsChain n (suc i) (some r.this_hash) rows (ground arith),
        )
      ]
    ]
  ]

  IsChain-verify :
      (n i : ℕ) (prev_hash : Option String) (rows : List AuditEvent)
      → IsChain i prev_hash rows
      → (verify_from sha256 n i prev_hash rows).ok ≡ true
  unfolding verify_from
  IsChain-verify n i prev_hash [] h = refl
  IsChain-verify n i prev_hash (r ∷ rows) (index, link, same, rest) = ground (
    arith,
    beq_of_eq r.row.seq i index,
    beq_of_eq r.row.prev_hash prev_hash link,
    beq_of_eq (hash_row sha256 r.row) r.this_hash same,
    IsChain-verify n (suc i) (some r.this_hash) rows rest,
  )

  -- The verification of an organisation's log succeeds exactly when its rows, in the order of their
  -- sequence numbers, are numbered 0, 1, 2, … without a gap, each carries the hash of the row before
  -- it (the first none), and each stored hash is the hash of the row's own fields.
  pub verify_audit_chain_iff :
      (organization_id : String) (events : List AuditEvent)
      → ((verify_audit_chain sha256 organization_id events).ok ≡ true)
        ↔ IsChain 0 none (stream_of organization_id events)
  unfolding verify_audit_chain
  verify_audit_chain_iff organization_id events =
      (verify-IsChain _ 0 none _, IsChain-verify _ 0 none _)

  pub IsChain-seq-lt :
      (i : ℕ) (prev_hash : Option String) (rows : List AuditEvent)
      → IsChain i prev_hash rows
      → All (λ r. r.row.seq < i + length rows) rows
  IsChain-seq-lt i prev_hash [] h r m = elim m [ ]
  IsChain-seq-lt i prev_hash (s ∷ rows) (index, link, same, rest) r m = elim (mem-cons m) [
    | inl q ↦ let e : r.row.seq ≡ i = ap (λ (x : AuditEvent). x.row.seq) q ∙ index in omega arith
    | inr k ↦ omega (arith, IsChain-seq-lt (suc i) (some s.this_hash) rows rest r k)
  ]

  -- A row that continues the chain.
  pub IsChain-append :
      (i : ℕ) (prev_hash : Option String) (rows : List AuditEvent) (e : AuditEvent)
      → IsChain i prev_hash rows
      → e.row.seq ≡ i + length rows
      → ((rows ≡ []) → e.row.prev_hash ≡ prev_hash)
      → ((l : AuditEvent) → last_of rows ≡ some l → e.row.prev_hash ≡ some l.this_hash)
      → hash_row sha256 e.row ≡ e.this_hash
      → IsChain i prev_hash (rows ++ e ∷ [])
  IsChain-append i prev_hash [] e h index first later same = (omega arith, first refl, same, tt)
  IsChain-append i prev_hash (r ∷ rows) e (n, link, own, rest) index first later same = (
    n,
    link,
    own,
    IsChain-append (suc i) (some r.this_hash) rows e rest (omega arith)
        (λ q. later r (unfold last_of in rw q)) (λ l q. later l (last_of-cons r rows q)) same,
  )
