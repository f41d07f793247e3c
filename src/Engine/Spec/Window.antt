-- ===== src/Engine/Spec/Window.antt =====
-- The deque of the rate limit is in order, so what is left behind a cutoff is what lies after it.
use asphallea.Prelude.{
  refl, ◌++◌, count, length, Bool-cases, List, [], arith, false, inl, inr, ◌≡◌, ◌∷◌,
}
use asphallea.Engine.{drop_expired}
use asphallea.Engine.RateWindow.{after}
use asphallea.Prelude.Int.{leb_ℤ, ℤ, ◌≤ℤ◌}

-- In order, from `low` and up to `high`.
abbrev pub Within : ℤ → ℤ → List ℤ → Type 0
Within low high [] = low ≤ℤ high
Within low high (t ∷ ts) = (low ≤ℤ t) × Within t high ts

abbrev pub IsOrdered : ℤ → List ℤ → Type 0
IsOrdered high [] = Unit
IsOrdered high (t ∷ ts) = Within t high ts

Within-append :
    (low high later : ℤ) (ts : List ℤ)
    → high ≤ℤ later
    → Within low high ts
    → Within low later (ts ++ later ∷ [])
Within-append low high later [] h w = (omega arith, omega arith)
Within-append low high later (t ∷ ts) h (k, w) = (k, Within-append t high later ts h w)

pub IsOrdered-append :
    (high later : ℤ) (ts : List ℤ)
    → high ≤ℤ later
    → IsOrdered high ts
    → IsOrdered later (ts ++ later ∷ [])
IsOrdered-append high later [] h w = omega arith
IsOrdered-append high later (t ∷ ts) h w = Within-append t high later ts h w

Within-later :
    (low high later : ℤ) (ts : List ℤ) → high ≤ℤ later → Within low high ts → Within low later ts
Within-later low high later [] h w = omega arith
Within-later low high later (t ∷ ts) h (k, w) = (k, Within-later t high later ts h w)

pub IsOrdered-later :
    (high later : ℤ) (ts : List ℤ) → high ≤ℤ later → IsOrdered high ts → IsOrdered later ts
IsOrdered-later high later [] h w = tt
IsOrdered-later high later (t ∷ ts) h w = Within-later t high later ts h w

Within-IsOrdered : (low high : ℤ) (ts : List ℤ) → Within low high ts → IsOrdered high ts
Within-IsOrdered low high [] w = tt
Within-IsOrdered low high (t ∷ ts) (k, w) = w

pub drop_expired-IsOrdered :
    (cutoff high : ℤ) (ts : List ℤ) → IsOrdered high ts → IsOrdered high (drop_expired cutoff ts)
unfolding drop_expired
drop_expired-IsOrdered cutoff high [] w = tt
drop_expired-IsOrdered cutoff high (t ∷ ts) w = elim (Bool-cases (leb_ℤ t cutoff)) [
  | inl gone ↦ rw gone (drop_expired-IsOrdered cutoff high ts (Within-IsOrdered t high ts w))
  | inr live ↦ rw live w
]

count-Within :
    (cutoff low high : ℤ) (ts : List ℤ)
    → leb_ℤ low cutoff ≡ false
    → Within low high ts
    → count (after cutoff) ts ≡ length ts
count-Within cutoff low high [] h w = refl
count-Within cutoff low high (t ∷ ts) h (k, w) = ground (arith, count-Within cutoff t high ts)

pub length-drop_expired :
    (cutoff high : ℤ) (ts : List ℤ)
    → IsOrdered high ts
    → length (drop_expired cutoff ts) ≡ count (after cutoff) ts
unfolding drop_expired
length-drop_expired cutoff high [] w = refl
length-drop_expired cutoff high (t ∷ ts) w = ground (
  arith,
  length-drop_expired cutoff high ts (Within-IsOrdered t high ts w),
  count-Within cutoff t high ts,
)
