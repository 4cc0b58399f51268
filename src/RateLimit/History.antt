-- ===== src/RateLimit/History.antt =====
-- The limiter against the history of what happened to it.
use qlerify_live.Prelude.{
  ℕ, String, ◌≡◌, refl, ◌∙◌, Option, none, some, List, [], ◌∷◌, ◌++◌, ◌==◌, string_eq,
  if◌then◌else◌, get, put, delete, get-put, get-delete, arith, eq_iff,
}
use qlerify_live.RateLimit.{
  Buckets, empty_if_missing, prune, check_bucket, check, record_failure, reset,
}
use qlerify_live.RateLimit.Window.{Act, failed, looked, cleared}

abbrev pub hits_at : Buckets → String → List ℕ
hits_at s key = empty_if_missing (get s key)

hits_at-put :
    (s : Buckets) (k : String) (hits : List ℕ) (key : String)
    → hits_at (put s k hits) key ≡ (if k == key then hits else hits_at s key)
hits_at-put s k hits key = ground (arith, eq_iff k key, get-put s k hits key)

hits_at-delete :
    (s : Buckets) (k key : String)
    → hits_at (delete s k) key ≡ (if k == key then [] else hits_at s key)
hits_at-delete s k key = ground (arith, eq_iff k key, get-delete s k key)

if_at :
    {A : Type 0} (f : String → A) (k key : String) (g : A → A)
    → (if k == key then g (f k) else f key) ≡ (if k == key then g (f key) else f key)
if_at f k key g = grind (arith, eq_iff k key)

module _ (window : ℕ) where
  -- What an act makes of the hits of a key.
  unfoldable pub hits_after : Act → String → List ℕ → List ℕ
  unfolding prune
  hits_after (failed k now) key hits = if k == key then prune window now hits ++ now ∷ [] else hits
  hits_after (looked k now) key hits = if k == key then prune window now hits else hits
  hits_after (cleared k) key hits = if k == key then [] else hits

module _ (window limit : ℕ) where
  unfoldable pub act : Act → Buckets → Buckets
  unfolding record_failure check reset
  act (failed key now) s = record_failure window key now s
  act (looked key now) s = (check window limit key now s).0
  act (cleared key) s = reset key s

  unfoldable pub run : List Act → Buckets → Buckets
  unfolding act
  run [] s = s
  run (a ∷ acts) s = run acts (act a s)

  looked-hits_after :
      (k : String) (now : ℕ) (s : Buckets) (key : String) (bucket : Option (List ℕ))
      → get s k ≡ bucket
      → hits_at (check_bucket window limit now s k bucket).0 key
        ≡ (if k == key then prune window now (empty_if_missing bucket) else hits_at s key)
  unfolding check_bucket prune
  looked-hits_after k now s key none e = grind (arith, eq_iff k key, e)
  looked-hits_after k now s key (some hits) e = hits_at-put s k (prune window now hits) key

  pub act-hits_after :
      (a : Act) (s : Buckets) (key : String)
      → hits_at (act a s) key ≡ hits_after window a key (hits_at s key)
  unfolding act hits_after record_failure check reset
  act-hits_after (failed k now) s key =
      hits_at-put s k (prune window now (hits_at s k) ++ now ∷ []) key
      ∙ if_at (hits_at s) k key (λ hits. prune window now hits ++ now ∷ [])
  act-hits_after (looked k now) s key =
      looked-hits_after k now s key (get s k) refl ∙ if_at (hits_at s) k key (prune window now)
  act-hits_after (cleared k) s key = hits_at-delete s k key
