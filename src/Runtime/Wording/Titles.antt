-- ===== src/Runtime/Wording/Titles.antt =====
-- runtime/drafts.py: titles.
use Prim.Native.String as S
use Prim.Native.String.append as append
use newbro.Prelude.{
  ℕ, zero, suc, ◌+◌, ◌≤◌, String, true, false, ◌≡◌, arith, inl, inr, if◌then◌else◌, ltb, Bool-cases,
  Bool, ap, ◌∙◌,
}
use newbro.Prelude.Text.{truthy, strip, rstrip}
use newbro.Runtime.Wording.{chars, take_chars, rstrip_stops, title_from_goal, title}

chars-append : (s t : String) → chars (S.◌++◌ s t) ≡ chars s + chars t
unfolding chars
chars-append S.[] t = ap chars (append.nil t) ∙ omega arith
chars-append (S.◌∷◌ c s) t = ap chars (append.cons c s t) ∙ omega (arith, chars-append s t)

-- The longer of two texts bounds a choice of them.
chars-if :
    (b : Bool) (x y : String) (n : ℕ) → chars x ≤ n → chars y ≤ n → chars (if b then x else y) ≤ n
chars-if true x y n p q = p
chars-if false x y n p q = q

chars-take_chars : (n : ℕ) (s : String) → chars (take_chars n s) ≤ n
unfolding chars take_chars
chars-take_chars zero s = omega arith
chars-take_chars (suc n) S.[] = omega arith
chars-take_chars (suc n) (S.◌∷◌ c s) = omega (arith, chars-take_chars n s)

chars-rstrip : (s : String) → chars (rstrip s) ≤ chars s
unfolding chars rstrip
chars-rstrip S.[] = omega arith
chars-rstrip (S.◌∷◌ c s) =
    chars-if _ "" (S.◌∷◌ c (rstrip s)) (suc (chars s)) (omega arith) (omega (arith, chars-rstrip s))

shortened : (t : String) → chars (S.◌++◌ (rstrip (take_chars 69 t)) "...") ≤ 72
unfolding chars
shortened t = omega (
  arith,
  chars-append (rstrip (take_chars 69 t)) "...",
  chars-rstrip (take_chars 69 t),
  chars-take_chars 69 t,
)

truthy-chars : (s : String) → truthy s ≡ true → 1 ≤ chars s
unfolding chars
truthy-chars S.[] h = ground (arith, h)
truthy-chars (S.◌∷◌ c s) h = omega arith

title_from_goal-bounded :
    (goal : String) → (chars (title_from_goal goal) ≤ 72) × (1 ≤ chars (title_from_goal goal))
unfolding title_from_goal chars
title_from_goal-bounded goal =
    let t = rstrip_stops (strip goal) in
    let short = if ltb 72 (chars t) then S.◌++◌ (rstrip (take_chars 69 t)) "..." else t in
    let fits : chars short ≤ 72 = elim (Bool-cases (ltb 72 (chars t))) [
      | inl e ↦ rw e (shortened t)
      | inr e ↦ ground (arith, e)
    ] in
    elim (Bool-cases (truthy short)) [
      | inl e ↦ rw (e, title_from_goal) (fits, truthy-chars short e)
      | inr e ↦ rw (e, title_from_goal) (omega arith, omega arith)
    ]

-- A title has at most 72 characters, whatever the goal, and at least one.
pub title-bounded : (goal : String) → (chars (title goal) ≤ 72) × (1 ≤ chars (title goal))
unfolding title
title-bounded goal = title_from_goal-bounded (rstrip_stops (strip goal))
