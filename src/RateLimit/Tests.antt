-- ===== src/RateLimit/Tests.antt =====
-- Runs of the login limiter, and the uses of its theorems at concrete inputs.
use qlerify_live.Prelude.{
  ◌≢◌, true≢false, sym, String, ◌≡◌, refl, true, false, List, [], ◌∷◌, ◌≤◌, ◌↔◌, length, arith,
  eq_iff,
}
use qlerify_live.RateLimit.{LoginLimiter, check, check_login, record_login_success, ip_key}
use qlerify_live.RateLimit.Window.{Act, failed, looked, cleared, live, failures}
use qlerify_live.RateLimit.History.{run}
use qlerify_live.RateLimit.Blocking.{check-blocked_iff}
use qlerify_live.RateLimit.Login.{check_login-record_login_success}

abbrev attempts : List Act
attempts =
    failed "subj:ada" 100
    ∷ failed "subj:bob" 150
    ∷ looked "subj:ada" 160
    ∷ failed "subj:ada" 200
    ∷ cleared "subj:bob"
    ∷ failed "subj:ada" 1090
    ∷ []

blocked_now : (check 1000 2 "subj:ada" 1150 (run 1000 2 attempts [])).1.blocked ≡ true
unfolding check run
blocked_now = refl

free_later : (check 1000 2 "subj:ada" 1200 (run 1000 2 attempts [])).1.blocked ≡ false
unfolding check run
free_later = refl

check-blocked_iff_example :
    ((check 1000 2 "subj:ada" 1150 (run 1000 2 attempts [])).1.blocked ≡ true)
    ↔ (2 ≤ length (live 1000 1150 (failures "subj:ada" [] attempts)))
check-blocked_iff_example =
    check-blocked_iff 1000 2 "subj:ada" 1150 attempts (omega arith)
      (omega arith, (omega arith, (omega arith, (omega arith, (omega arith, omega arith)))))

ada_named : ◌≢◌ {A = String} "ada" ""
ada_named e = true≢false (sym ((eq_iff "ada" "").1 e))

abbrev limiter : LoginLimiter
limiter = record {
  ip = ("ip:10.0.0.1", 100 ∷ 110 ∷ []) ∷ [];
  subject = ("subj:ada", 100 ∷ 110 ∷ []) ∷ [];
}

check_login-record_login_success_example :
    (check_login 1000 3 2 "10.0.0.1" "ada" 200
      (record_login_success "10.0.0.2" "ada" limiter)).1.blocked
    ≡ (check 1000 3 (ip_key "10.0.0.1") 200 limiter.ip).1.blocked
check_login-record_login_success_example =
    check_login-record_login_success 1000 3 2 "10.0.0.2" "10.0.0.1" "ada" 200 limiter ada_named
