-- ===== src/Audit/Append.antt =====
-- Appending to the log keeps every organisation's chain intact.
use qlerify_live.Prelude.{
  ℕ, suc, String, ◌+◌, ◌<◌, ◌≡◌, refl, sym, ap, subst, ◌∙◌, inl, inr, true, false, Option, none,
  some, List, [], ◌∷◌, ◌++◌, Memᴰ, ◌==◌, string_eq, arith, leb, Bool-cases, Option-cases, All,
  length, filter, beq_refl, eq_of_beq, ne_of_beq, and_intro, mem-cons, filter-append_true,
  filter-append_false, ◌≢◌,
}
use qlerify_live.Audit.{
  AuditInput, AuditEvent, insert_by_seq, sort_by_seq, in_stream, stream_of, last_of, next_seq,
  new_event, record_audit, verify_from, verify_audit_chain,
}
use qlerify_live.Audit.Chain.{IsChain, verify_audit_chain_iff, IsChain-seq-lt, IsChain-append}

insert-mem :
    (e : AuditEvent) (rows : List AuditEvent) {r : AuditEvent}
    → Memᴰ r (e ∷ rows)
    → Memᴰ r (insert_by_seq e rows)
unfolding insert_by_seq
insert-mem e [] m = m
insert-mem e (f ∷ rows) {r} m = elim (Bool-cases (leb e.row.seq f.row.seq)) [
  | inl h ↦ rw h m
  | inr h ↦ rw h (elim (mem-cons m) [
    | inl q ↦ Memᴰ.tail (insert-mem e rows (Memᴰ.head q))
    | inr k ↦ elim (mem-cons k) [
      | inl q ↦ Memᴰ.head q
      | inr k' ↦ Memᴰ.tail (insert-mem e rows (Memᴰ.tail k'))
    ]
  ])
]

sort-mem : (rows : List AuditEvent) {r : AuditEvent} → Memᴰ r rows → Memᴰ r (sort_by_seq rows)
unfolding sort_by_seq
sort-mem [] m = m
sort-mem (e ∷ rows) m =
    insert-mem e (sort_by_seq rows)
      (elim (mem-cons m) [ inl q ↦ Memᴰ.head q | inr k ↦ Memᴰ.tail (sort-mem rows k) ])

insert-append :
    (e x : AuditEvent) (rows : List AuditEvent)
    → e.row.seq < x.row.seq
    → insert_by_seq e (rows ++ x ∷ []) ≡ insert_by_seq e rows ++ x ∷ []
unfolding insert_by_seq
insert-append e x [] h = ground arith
insert-append e x (f ∷ rows) h = ground (arith, insert-append e x rows h)

sort-append :
    (rows : List AuditEvent) (x : AuditEvent)
    → All (λ r. r.row.seq < x.row.seq) rows
    → sort_by_seq (rows ++ x ∷ []) ≡ sort_by_seq rows ++ x ∷ []
unfolding sort_by_seq
sort-append [] x h = unfold insert_by_seq in refl
sort-append (e ∷ rows) x h =
    ap (insert_by_seq e) (sort-append rows x (λ r m. h r (Memᴰ.tail m)))
    ∙ insert-append e x (sort_by_seq rows) (h e (Memᴰ.head refl))

last-seq :
    (sha256 : String → String) (i : ℕ) (prev_hash : Option String) (rows : List AuditEvent)
    {l : AuditEvent}
    → IsChain sha256 i prev_hash rows
    → last_of rows ≡ some l
    → l.row.seq + 1 ≡ i + length rows
unfolding last_of
last-seq sha256 i prev_hash [] h q = cc
last-seq sha256 i prev_hash (r ∷ []) {l} (n, _, _, _) q =
    let same : r ≡ l = cc in
    let e : r.row.seq ≡ l.row.seq = ap (λ (x : AuditEvent). x.row.seq) same in omega arith
last-seq sha256 i prev_hash (r ∷ s ∷ rows) (n, link, own, rest) q =
    omega (arith, last-seq sha256 (suc i) (some r.this_hash) (s ∷ rows) rest q)

last-none : (rows : List AuditEvent) → last_of rows ≡ none → rows ≡ []
unfolding last_of
last-none [] q = refl
last-none (r ∷ []) q = cc
last-none (r ∷ s ∷ rows) q = absurd (nil (last-none (s ∷ rows) q))
  where
    nil : ¬ (s ∷ rows ≡ [])
    nil e = cc

mem-stream :
    (org : String) (events : List AuditEvent) {r : AuditEvent}
    → Memᴰ r (filter (in_stream org) events)
    → Memᴰ r (stream_of org events)
unfolding stream_of
mem-stream org events m = sort-mem (filter (in_stream org) events) m

module _ (sha256 : String → String) (input : AuditInput) (id now : String)
    (events : List AuditEvent) where
  abbrev org : String
  org = input.organization_id

  abbrev rows : List AuditEvent
  rows = stream_of org events

  abbrev written : AuditEvent
  written = new_event sha256 input (last_of rows) id now

  stream-own :
      All (λ r. r.row.seq < written.row.seq) (filter (in_stream org) events)
      → stream_of org (record_audit sha256 input id now events).0 ≡ rows ++ written ∷ []
  unfolding stream_of record_audit
  stream-own h =
      ap sort_by_seq (
        filter-append_true (in_stream org) events written
          (and_intro _ _ (beq_refl org) (beq_refl org)))
      ∙ sort-append (filter (in_stream org) events) written h

  pub stream-other :
      (other : String)
      → other ≢ org
      → stream_of other (record_audit sha256 input id now events).0 ≡ stream_of other events
  unfolding stream_of record_audit
  stream-other other h = ap sort_by_seq (filter-append_false (in_stream other) events written miss)
    where
      miss : in_stream other written ≡ false
      miss = elim (Bool-cases (org == other)) [
        | inl e ↦ absurd (h (sym (eq_of_beq org other e)))
        | inr e ↦ rw e
      ]

  next-length : IsChain sha256 0 none rows → next_seq (last_of rows) ≡ length rows
  next-length h = elim (Option-cases (last_of rows)) [
    | inr (l, q) ↦ rw q (omega (arith, last-seq sha256 0 none rows h q))
    | inl q ↦ rw (q, last-none rows q)
  ]

  own-IsChain :
      IsChain sha256 0 none rows
      → IsChain sha256 0 none (stream_of org (record_audit sha256 input id now events).0)
  own-IsChain h = subst (IsChain sha256 0 none) (sym (stream-own below)) (
      IsChain-append sha256 0 none rows written h (omega (arith, next-length h))
        (λ q. rw q (unfold last_of in refl)) (λ l q. rw q) refl)
    where
      below : All (λ r. r.row.seq < written.row.seq) (filter (in_stream org) events)
      below r m =
          omega
            (arith, next-length h, IsChain-seq-lt sha256 0 none rows h r (mem-stream org events m))

-- After `recordAudit`, verification succeeds for the organisation if it did before, and gives what it
-- gave for every other organisation.
pub record_audit-verify :
    (sha256 : String → String) (input : AuditInput) (id now : String) (events : List AuditEvent)
    → ((verify_audit_chain sha256 input.organization_id events).ok ≡ true
        → (verify_audit_chain sha256 input.organization_id
            (record_audit sha256 input id now events).0).ok
          ≡ true)
      × ((other : String)
          → other ≢ input.organization_id
          → verify_audit_chain sha256 other (record_audit sha256 input id now events).0
            ≡ verify_audit_chain sha256 other events)
record_audit-verify sha256 input id now events = (
  λ h. (verify_audit_chain_iff sha256 input.organization_id _).1 (
      own-IsChain sha256 input id now events
        ((verify_audit_chain_iff sha256 input.organization_id events).0 h)),
  λ other ne.
      unfold verify_audit_chain in
      ap (λ rs. verify_from sha256 (length rs) 0 none rs)
        (stream-other sha256 input id now events other ne),
)

-- The table after a history of calls from the empty table: input, id and time of each.
unfoldable pub record_all :
    (String → String) → List (AuditInput × String × String) → List AuditEvent → List AuditEvent
record_all sha256 [] events = events
record_all sha256 ((input, id, now) ∷ calls) events =
    record_all sha256 calls (record_audit sha256 input id now events).0

record_all-verify :
    (sha256 : String → String) (organization_id : String)
    (calls : List (AuditInput × String × String)) (events : List AuditEvent)
    → (verify_audit_chain sha256 organization_id events).ok ≡ true
    → (verify_audit_chain sha256 organization_id (record_all sha256 calls events)).ok ≡ true
unfolding record_all
record_all-verify sha256 org [] events h = h
record_all-verify sha256 org ((input, id, now) ∷ calls) events h =
    record_all-verify sha256 org calls _ (elim (Bool-cases (org == input.organization_id)) [
      | inl e ↦
          let q = eq_of_beq org input.organization_id e in
          subst
            (λ o.
              (verify_audit_chain sha256 o (record_audit sha256 input id now events).0).ok ≡ true)
            (sym q)
            ((record_audit-verify sha256 input id now events).0
              (subst (λ o. (verify_audit_chain sha256 o events).ok ≡ true) q h))
      | inr e ↦ rw ((record_audit-verify sha256 input id now events).1 org (ne_of_beq _ _ e)) h
    ])

-- Whatever the history of `recordAudit` calls from an empty table, of whichever organisations and in
-- whichever order, the verification of every organisation's log succeeds.
pub audit_history-verify :
    (sha256 : String → String) (organization_id : String)
    (calls : List (AuditInput × String × String))
    → (verify_audit_chain sha256 organization_id (record_all sha256 calls [])).ok ≡ true
audit_history-verify sha256 organization_id calls =
    record_all-verify sha256 organization_id calls [] (unfold verify_audit_chain in refl)
