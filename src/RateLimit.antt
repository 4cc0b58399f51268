-- ===== src/RateLimit.antt =====
-- platform/authn/rate-limit.ts: the sliding-window limiter of failed logins. Times are milliseconds;
-- `hit <= now - windowMs` on integers is `hit + windowMs <= now`. A retry time is `none` where the
-- source computes NaN, which it does for a limit of zero and no hit.
pub mod Window
mod Blocking
pub mod History
mod Login
mod Tests
use qlerify_live.Prelude.{
  ℕ, suc, String, ◌+◌, ◌-◌, ◌/◌, max, Bool, true, false, Option, none, some, List, [], ◌∷◌, ◌++◌,
  ◌||◌, ◌==◌, string_eq, leb, ltb, if◌then◌else◌, length, head?, template, Map, get, put, delete,
}

pub record RateDecision : Type 0 where
  pub blocked : Bool
  pub retry_after_sec : Option ℕ

abbrev pub free : RateDecision
free = record { blocked = false; retry_after_sec = some 0 }

abbrev pub Buckets : Type 0
Buckets = Map (List ℕ)

-- `Math.max(1, Math.ceil((hits[0] + windowMs - now) / 1000))`
unfoldable pub retry_after : ℕ → ℕ → Option ℕ → Option ℕ
retry_after window now none = none
retry_after window now (some oldest) = some (max 1 ((oldest + window - now + 999) / 1000))

abbrev pub empty_if_missing : Option (List ℕ) → List ℕ
empty_if_missing none = []
empty_if_missing (some hits) = hits

-- `SlidingWindowLimiter`, constructed with a window and a limit.
module _ (window : ℕ) where
  -- Drops the hits at the front that the window has left behind.
  unfoldable pub prune : ℕ → List ℕ → List ℕ
  prune now [] = []
  prune now (hit ∷ hits) = if leb (hit + window) now then prune now hits else hit ∷ hits

  unfoldable pub record_failure : String → ℕ → Buckets → Buckets
  unfolding prune get put
  record_failure key now buckets =
      put buckets key (prune now (empty_if_missing (get buckets key)) ++ now ∷ [])

module _ (window limit : ℕ) where
  abbrev decide : ℕ → List ℕ → RateDecision
  decide now hits =
      if ltb (length hits) limit
      then free
      else record { blocked = true; retry_after_sec = retry_after window now (head? hits) }

  -- The bucket is pruned in place, so the buckets are returned too.
  unfoldable pub check_bucket : ℕ → Buckets → String → Option (List ℕ) → Buckets × RateDecision
  unfolding prune retry_after put
  check_bucket now buckets key none = (buckets, free)
  check_bucket now buckets key (some hits) =
      let left = prune window now hits in (put buckets key left, decide now left)

  unfoldable pub check : String → ℕ → Buckets → Buckets × RateDecision
  unfolding check_bucket get
  check key now buckets = check_bucket now buckets key (get buckets key)

unfoldable pub reset : String → Buckets → Buckets
unfolding delete
reset key buckets = delete buckets key

-- `LoginRateLimiter`: one window for source addresses, one for accounts.
pub record LoginLimiter : Type 0 where
  pub ip : Buckets
  pub subject : Buckets

-- `Math.max`, which is NaN if one of its arguments is.
abbrev pub max_or_nan : Option ℕ → Option ℕ → Option ℕ
max_or_nan (some a) (some b) = some (max a b)
max_or_nan _ _ = none

abbrev pub ip_key : String → String
ip_key ip = template ("ip:" ∷ ip ∷ [])

abbrev pub subject_key : String → String
subject_key subject = template ("subj:" ∷ subject ∷ [])

abbrev pub gate_of : RateDecision → RateDecision → RateDecision
gate_of a b = record {
  blocked = a.blocked || b.blocked;
  retry_after_sec = max_or_nan a.retry_after_sec b.retry_after_sec;
}

module _ (window ip_max subject_max : ℕ) where
  unfoldable pub check_login : String → String → ℕ → LoginLimiter → LoginLimiter × RateDecision
  unfolding check template
  check_login ip subject now s =
      let (ip_buckets, ip_decision) = check window ip_max (ip_key ip) now s.ip in
      let (subject_buckets, subject_decision) =
        if subject == ""
        then (s.subject, free)
        else check window subject_max (subject_key subject) now s.subject in
      (record { ip = ip_buckets; subject = subject_buckets }, gate_of ip_decision subject_decision)

  unfoldable pub record_login_failure : String → String → ℕ → LoginLimiter → LoginLimiter
  unfolding record_failure template
  record_login_failure ip subject now s = record {
    ip = record_failure window (ip_key ip) now s.ip;
    subject =
        if subject == ""
        then s.subject
        else record_failure window (subject_key subject) now s.subject;
  }

-- A success clears the account's window and leaves the address's window alone.
unfoldable pub record_login_success : String → String → LoginLimiter → LoginLimiter
unfolding reset template
record_login_success ip subject s = record s {
  subject = if subject == "" then s.subject else reset (subject_key subject) s.subject;
}
