-- ===== src/RateLimit/Blocking.antt =====
-- The limiter blocks exactly when the failures that still count are at the limit.
use qlerify_live.Prelude.{
  ℕ, String, ◌+◌, ◌≤◌, ◌<◌, ◌≡◌, refl, sym, ap, ◌∙◌, Bool, true, false, Option, none, some, List,
  [], ◌∷◌, ◌++◌, ◌==◌, string_eq, ltb, if◌then◌else◌, length, filter, filter-append, arith, subst,
  ◌↔◌,
}
use qlerify_live.RateLimit.{Buckets, empty_if_missing, prune, check_bucket, check}
use qlerify_live.RateLimit.Window.{
  Act, failed, looked, cleared, live, failures, InOrder, Ordered, AllUpto, Ordered-append,
  AllUpto-append, AllUpto-le, live-live, prune-live, Ordered-prune, AllUpto-prune, if_intro,
}
use qlerify_live.RateLimit.History.{act, run, hits_at, hits_after, act-hits_after}

if_both :
    {A B : Type 0} (P : A → B → Type 0) (b : Bool) {x y : A} {u v : B}
    → P x u
    → P y v
    → P (if b then x else y) (if b then u else v)
if_both P true p q = p
if_both P false p q = q

module _ (window : ℕ) where
  live-append :
      (now : ℕ) (xs ys zs : List ℕ)
      → live window now xs ≡ live window now ys
      → live window now (xs ++ zs) ≡ live window now (ys ++ zs)
  unfolding live
  live-append now xs ys zs e =
      filter-append (λ t. ltb now (t + window)) xs zs
      ∙ ap (λ hits. hits ++ live window now zs) e
      ∙ sym (filter-append (λ t. ltb now (t + window)) ys zs)

  live-nil : (now : ℕ) → live window now [] ≡ []
  unfolding live filter
  live-nil now = refl

  -- At a time, the hits of a bucket are in order, not later than it, and stand for the failures.
  abbrev Counts : ℕ → List ℕ → List ℕ → Type 0
  Counts t hits times =
      Ordered hits
      × AllUpto t hits
      × ((now : ℕ) → t ≤ now → live window now hits ≡ live window now times)

  Counts-le : (s t : ℕ) (hits times : List ℕ) → s ≤ t → Counts s hits times → Counts t hits times
  Counts-le s t hits times h (o, u, e) =
      (o, AllUpto-le s t hits h u, λ now k. e now (omega (arith, h, k)))

  Counts-prune :
      (t : ℕ) (hits times : List ℕ) → Counts t hits times → Counts t (prune window t hits) times
  Counts-prune t hits times (o, u, e) = (
    Ordered-prune window t hits o,
    AllUpto-prune window t t hits u,
    λ now h.
        ap (live window now) (prune-live window t hits o) ∙ live-live window t now hits h ∙ e now h,
  )

  Counts-failed :
      (t : ℕ) (hits times : List ℕ)
      → Counts t hits times
      → Counts t (hits ++ t ∷ []) (times ++ t ∷ [])
  Counts-failed t hits times (o, u, e) = (
    Ordered-append hits t o u,
    AllUpto-append t hits u,
    λ now h. live-append now hits times (t ∷ []) (e now h),
  )

  Counts-cleared : (t : ℕ) → Counts t [] []
  Counts-cleared t = (tt, tt, λ now h. refl)

module _ (window limit : ℕ) where
  run-Counts :
      (key : String) (acts : List Act) (from upto : ℕ) (s : Buckets) (times : List ℕ)
      → InOrder from upto acts
      → Counts window from (hits_at s key) times
      → Counts window upto (hits_at (run window limit acts s) key) (failures key times acts)
  unfolding run failures hits_after
  run-Counts key [] from upto s times h c = Counts-le window from upto (hits_at s key) times h c
  run-Counts key (failed k t ∷ acts) from upto s times (h, o) c =
      run-Counts key acts t upto (act window limit (failed k t) s) _ o (
        subst (λ hits. Counts window t hits (if k == key then times ++ t ∷ [] else times))
          (sym (act-hits_after window limit (failed k t) s key))
          (if_both (Counts window t) (k == key)
            (Counts-failed window t _ times (Counts-prune window t _ times later)) later))
    where
      later : Counts window t (hits_at s key) times
      later = Counts-le window from t (hits_at s key) times h c
  run-Counts key (looked k t ∷ acts) from upto s times (h, o) c =
      run-Counts key acts t upto (act window limit (looked k t) s) times o (
        subst (λ hits. Counts window t hits times)
          (sym (act-hits_after window limit (looked k t) s key))
          (if_intro (λ hits. Counts window t hits times) (k == key)
            (Counts-prune window t _ times later) later))
    where
      later : Counts window t (hits_at s key) times
      later = Counts-le window from t (hits_at s key) times h c
  run-Counts key (cleared k ∷ acts) from upto s times o c =
      run-Counts key acts from upto (act window limit (cleared k) s) _ o (
        subst (λ hits. Counts window from hits (if k == key then [] else times))
          (sym (act-hits_after window limit (cleared k) s key))
          (if_both (Counts window from) (k == key) (Counts-cleared window from) c))

  bucket-blocked_iff :
      (key : String) (now : ℕ) (s : Buckets) (bucket : Option (List ℕ)) (times : List ℕ)
      → 0 < limit
      → Counts window now (empty_if_missing bucket) times
      → ((check_bucket window limit now s key bucket).1.blocked ≡ true)
        ↔ (limit ≤ length (live window now times))
  unfolding check_bucket
  bucket-blocked_iff key now s none times h (o, u, e) =
      ground (arith, ap length (e now (omega arith)), ap length (live-nil window now))
  bucket-blocked_iff key now s (some hits) times h (o, u, e) =
      ground (arith, ap length (e now (omega arith)), ap length (prune-live window now hits o))

  -- For a positive limit and acts whose times are in order, from an empty limiter: a key is blocked
  -- exactly when its failures since it was last reset that the window still holds, the window's
  -- start excluded, are at least as many as the limit.
  pub check-blocked_iff :
      (key : String) (now : ℕ) (acts : List Act)
      → 0 < limit
      → InOrder 0 now acts
      → ((check window limit key now (run window limit acts [])).1.blocked ≡ true)
        ↔ (limit ≤ length (live window now (failures key [] acts)))
  unfolding check
  check-blocked_iff key now acts h o =
      bucket-blocked_iff key now _ _ _ h
        (run-Counts key acts 0 now [] [] o (Counts-cleared window 0))
