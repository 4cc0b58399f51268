-- ===== src/RateLimit/Window.antt =====
-- The limiter against the history of attempts: it blocks when the failures of the window are many.
use qlerify_live.Prelude.{
  ℕ, String, ◌+◌, ◌≤◌, ◌<◌, ◌≡◌, refl, Bool, true, false, List, [], ◌∷◌, ◌++◌, ◌==◌, string_eq, leb,
  ltb, if◌then◌else◌, filter, arith,
}
use qlerify_live.RateLimit.{prune}

-- What happens to a limiter: a failed attempt, a look at a time, a reset.
pub data Act : Type 0 where
  failed : String → ℕ → Act
  looked : String → ℕ → Act
  cleared : String → Act

-- The failures that still count at a time.
unfoldable pub live : ℕ → ℕ → List ℕ → List ℕ
unfolding filter
live window now times = filter (λ t. ltb now (t + window)) times

-- The times of the failures of a key since it was last reset, after `acc`.
unfoldable pub failures : String → List ℕ → List Act → List ℕ
failures key acc [] = acc
failures key acc (failed k t ∷ acts) = failures key (if k == key then acc ++ t ∷ [] else acc) acts
failures key acc (looked k t ∷ acts) = failures key acc acts
failures key acc (cleared k ∷ acts) = failures key (if k == key then [] else acc) acts

-- No act is earlier than the one before it, the first not earlier than `from` and none later
-- than `upto`.
abbrev pub InOrder : ℕ → ℕ → List Act → Type 0
InOrder from upto [] = from ≤ upto
InOrder from upto (failed k t ∷ acts) = (from ≤ t) × InOrder t upto acts
InOrder from upto (looked k t ∷ acts) = (from ≤ t) × InOrder t upto acts
InOrder from upto (cleared k ∷ acts) = InOrder from upto acts

abbrev pub AllFrom : ℕ → List ℕ → Type 0
AllFrom t [] = Unit
AllFrom t (h ∷ hits) = (t ≤ h) × AllFrom t hits

abbrev pub Ordered : List ℕ → Type 0
Ordered [] = Unit
Ordered (h ∷ hits) = AllFrom h hits × Ordered hits

abbrev pub AllUpto : ℕ → List ℕ → Type 0
AllUpto t [] = Unit
AllUpto t (h ∷ hits) = (h ≤ t) × AllUpto t hits

AllFrom-append :
    (t : ℕ) (hits : List ℕ) (now : ℕ) → AllFrom t hits → t ≤ now → AllFrom t (hits ++ now ∷ [])
AllFrom-append t [] now a h = (h, tt)
AllFrom-append t (x ∷ hits) now (p, a) h = (p, AllFrom-append t hits now a h)

pub Ordered-append :
    (hits : List ℕ) (now : ℕ) → Ordered hits → AllUpto now hits → Ordered (hits ++ now ∷ [])
Ordered-append [] now o u = (tt, tt)
Ordered-append (h ∷ hits) now (a, o) (p, u) =
    (AllFrom-append h hits now a p, Ordered-append hits now o u)

pub AllUpto-append : (t : ℕ) (hits : List ℕ) → AllUpto t hits → AllUpto t (hits ++ t ∷ [])
AllUpto-append t [] u = (omega arith, tt)
AllUpto-append t (h ∷ hits) (p, u) = (p, AllUpto-append t hits u)

pub AllUpto-le : (s t : ℕ) (hits : List ℕ) → s ≤ t → AllUpto s hits → AllUpto t hits
AllUpto-le s t [] h u = tt
AllUpto-le s t (x ∷ hits) h (p, u) = (omega arith, AllUpto-le s t hits h u)

pub if_intro :
    {A : Type 0} (P : A → Type 0) (b : Bool) {x y : A} → P x → P y → P (if b then x else y)
if_intro P true p q = p
if_intro P false p q = q

module _ (window : ℕ) where
  live-all :
      (now h : ℕ) (hits : List ℕ) → now < h + window → AllFrom h hits → live window now hits ≡ hits
  unfolding live filter
  live-all now h [] p a = refl
  live-all now h (x ∷ hits) p (q, a) = ground (arith, live-all now h hits p a)

  pub live-live :
      (now later : ℕ) (hits : List ℕ)
      → now ≤ later
      → live window later (live window now hits) ≡ live window later hits
  unfolding live filter
  live-live now later [] h = refl
  live-live now later (x ∷ hits) h = ground (arith, live-live now later hits h)

  pub prune-live :
      (now : ℕ) (hits : List ℕ) → Ordered hits → prune window now hits ≡ live window now hits
  unfolding prune live filter
  prune-live now [] o = refl
  prune-live now (h ∷ hits) (a, o) = ground (arith, prune-live now hits o, live_all_tail)
    where
      live_all_tail : now < h + window → live window now hits ≡ hits
      live_all_tail p = live-all now h hits p a

  AllFrom-prune : (t now : ℕ) (hits : List ℕ) → AllFrom t hits → AllFrom t (prune window now hits)
  unfolding prune
  AllFrom-prune t now [] a = tt
  AllFrom-prune t now (h ∷ hits) (p, a) =
      if_intro (AllFrom t) (leb (h + window) now) (AllFrom-prune t now hits a) (p, a)

  pub Ordered-prune : (now : ℕ) (hits : List ℕ) → Ordered hits → Ordered (prune window now hits)
  unfolding prune
  Ordered-prune now [] o = tt
  Ordered-prune now (h ∷ hits) (a, o) =
      if_intro Ordered (leb (h + window) now) (Ordered-prune now hits o) (a, o)

  pub AllUpto-prune :
      (t now : ℕ) (hits : List ℕ) → AllUpto t hits → AllUpto t (prune window now hits)
  unfolding prune
  AllUpto-prune t now [] u = tt
  AllUpto-prune t now (h ∷ hits) (p, u) =
      if_intro (AllUpto t) (leb (h + window) now) (AllUpto-prune t now hits u) (p, u)
