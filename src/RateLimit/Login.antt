-- ===== src/RateLimit/Login.antt =====
-- The two windows of the login limiter together.
use qlerify_live.Prelude.{
  ℕ, String, ◌≡◌, ◌≢◌, ap, none, string_eq, get, delete, get-delete, arith, eq_iff,
}
use qlerify_live.RateLimit.{
  Buckets, LoginLimiter, free, check_bucket, check, reset, check_login, record_login_success,
  ip_key, subject_key,
}

get-delete_same : (buckets : Buckets) (key : String) → get (delete buckets key) key ≡ none
get-delete_same buckets key = ground (arith, eq_iff key key, get-delete buckets key key)

check-reset :
    (window limit : ℕ) (key : String) (now : ℕ) (buckets : Buckets)
    → (check window limit key now (reset key buckets)).1 ≡ free
unfolding check check_bucket reset
check-reset window limit key now buckets =
    ap (λ bucket. (check_bucket window limit now (delete buckets key) key bucket).1)
      (get-delete_same buckets key)

module _ (window ip_max subject_max : ℕ) where
  -- After a success of an account with a name, from whichever address, an attempt on the account, at
  -- any time, is blocked exactly when the window of the attempt's own address blocks it, which the
  -- success has left as it was.
  pub check_login-record_login_success :
      (ip attempt_ip subject : String) (now : ℕ) (s : LoginLimiter)
      → subject ≢ ""
      → (check_login window ip_max subject_max attempt_ip subject now
          (record_login_success ip subject s)).1.blocked
        ≡ (check window ip_max (ip_key attempt_ip) now s.ip).1.blocked
  unfolding check_login record_login_success
  check_login-record_login_success ip attempt_ip subject now s h = ground (
    arith,
    eq_iff subject "",
    h,
    check-reset window subject_max (subject_key subject) now s.subject,
  )
