-- ===== src/Notification/Policy/Groups.antt =====
-- notification/policy.py: nothing is lost, made up or told twice by the plan.
use mathlib.Core.List.{Perm, perm_middle}
use mathlib.Core.List.Perm
use mathlib.Core.Bool.{false≢true}
use newbro.Prelude.{
  ℕ, ◌+◌, ◌-◌, ◌≤◌, ◌<◌, String, List, [], ◌∷◌, ◌++◌, map, ◌≡◌, refl, sym, ap, ◌∙◌, Bool, true,
  false, not, Option, none, some, arith, if◌then◌else◌, Bool-cases, inl, inr, keep, All, flatten,
  flatten-append, or_else, append_assoc, append-nil, min, is_empty, ◌||◌,
}
use newbro.Prelude.Text.{◌==◌, eq_iff, eq_refl, text_le}
use newbro.Prelude.Clock.{Clock}
use newbro.Prelude.Dict as D
use newbro.Prelude.Dict.{Dict, keys, values, IsDict, Misses}
use newbro.Prelude.Sort.{sorted, sorted-perm, sorted-flatten}
use newbro.Protocol.Records.{NotificationCandidate}
use newbro.Blackboard.Tasks.{push}
use newbro.Notification.Policy.{
  is_pending, is_immediate, created_before, group_from, merged, singles, due_at, is_due, next_due,
  plan,
}

abbrev at : Dict (List NotificationCandidate) → String → List NotificationCandidate
at d k = or_else (D.get k d) []

push-cons :
    (k j : String) (c : NotificationCandidate) (w : List NotificationCandidate)
    (d : Dict (List NotificationCandidate))
    → push k c ((j, w) ∷ d) ≡ (if j == k then (j, w ++ c ∷ []) ∷ d else (j, w) ∷ push k c d)
unfolding push D.put D.get
push-cons k j c w d = ground arith

push-flatten :
    (k : String) (c : NotificationCandidate) (d : Dict (List NotificationCandidate))
    → Perm (flatten (values (push k c d))) (c ∷ flatten (values d))
unfolding flatten
push-flatten k c [] = unfold push D.put D.get in Perm.refl _
push-flatten k c ((j, w) ∷ d) = elim (Bool-cases (j == k)) [
  | inl same ↦
      rw (push-cons, same)
        (rw (append_assoc w (c ∷ []) (flatten (values d))) (perm_middle w (flatten (values d))))
  | inr other ↦
      rw (push-cons, other)
        (Perm.trans (Perm.append_left w (push-flatten k c d)) (perm_middle w (flatten (values d))))
]

push-IsDict :
    (k : String) (c : NotificationCandidate) (d : Dict (List NotificationCandidate))
    → IsDict d
    → IsDict (push k c d)
unfolding push
push-IsDict k c d h = D.put-IsDict k (at d k ++ c ∷ []) d h

group_from-perm :
    (d : Dict (List NotificationCandidate)) (cs : List NotificationCandidate)
    → IsDict d
    → Perm (flatten (values (group_from d cs))) (cs ++ flatten (values d))
      × IsDict (group_from d cs)
unfolding group_from
group_from-perm d [] h = (Perm.refl _, h)
group_from-perm d (c ∷ cs) h =
    let rest = group_from-perm (push c.merge_key c d) cs (push-IsDict c.merge_key c d h) in
    (
      Perm.trans rest.0 (
          Perm.trans (Perm.append_left cs (push-flatten c.merge_key c d))
            (perm_middle cs (flatten (values d)))),
      rest.1,
    )

-- Looking each key up gives the values back.
at-skip :
    (f : List NotificationCandidate → List NotificationCandidate) (ks : List String) (k : String)
    (v : List NotificationCandidate) (d : Dict (List NotificationCandidate))
    → Misses k (map (λ j. (j, v)) ks)
    → map (λ j. f (at ((k, v) ∷ d) j)) ks ≡ map (λ j. f (at d j)) ks
unfolding D.get
at-skip f [] k v d m = refl
at-skip f (j ∷ ks) k v d m = ground (arith, at-skip f ks k v d m.1, eq_iff k j, eq_iff j k)

Misses-keys :
    (k : String) (v : List NotificationCandidate) (d : Dict (List NotificationCandidate))
    → Misses k d
    → Misses k (map (λ j. (j, v)) (keys d))
Misses-keys k v [] m = tt
Misses-keys k v ((j, w) ∷ d) m = (m.0, Misses-keys k v d m.1)

at-keys :
    (f : List NotificationCandidate → List NotificationCandidate)
    (d : Dict (List NotificationCandidate))
    → IsDict d
    → map (λ k. f (at d k)) (keys d) ≡ map f (values d)
unfolding D.get
at-keys f [] h = refl
at-keys f ((k, v) ∷ d) h =
    ground (arith, eq_refl k, at-skip f (keys d) k v d (Misses-keys k v d h.0), at-keys f d h.1)

map-sorted-perm :
    (vs : List (List NotificationCandidate))
    → Perm (flatten (map (sorted created_before) vs)) (flatten vs)
unfolding flatten
map-sorted-perm [] = Perm.refl _
map-sorted-perm (v ∷ vs) = Perm.append (sorted-perm created_before v) (map-sorted-perm vs)

merged-perm : (cs : List NotificationCandidate) → Perm (flatten (merged cs)) cs
unfolding merged flatten
merged-perm cs =
    let grouped = group_from [] cs in
    let made = group_from-perm [] cs tt in
    Perm.trans (sorted-flatten text_le (λ k. sorted created_before (at grouped k)) (keys grouped)) (
      rw (at-keys (sorted created_before) grouped made.1)
        (Perm.trans (map-sorted-perm (values grouped)) (rw append-nil at made.0)))

flatten-singles : (cs : List NotificationCandidate) → flatten (singles cs) ≡ cs
unfolding singles flatten
flatten-singles [] = refl
flatten-singles (c ∷ cs) = ap (λ xs. c ∷ xs) (flatten-singles cs)

module _ (clock : Clock) (window now : ℕ) where
  -- The candidates that are to be told now: the pending ones that ask for immediate delivery and
  -- those whose merge window is over.
  abbrev pub ready : List NotificationCandidate → List NotificationCandidate
  ready cs =
      keep is_immediate (keep is_pending cs)
      ++ keep (is_due clock window now) (keep (λ c. not (is_immediate c)) (keep is_pending cs))

  ready-none :
      (cs : List NotificationCandidate) → is_empty (keep is_pending cs) ≡ true → ready cs ≡ []
  unfolding keep
  ready-none cs h = rw (empty_nil (keep is_pending cs) h) refl
    where
      empty_nil : (xs : List NotificationCandidate) → is_empty xs ≡ true → xs ≡ []
      empty_nil [] e = refl
      empty_nil (x ∷ xs) e = cc

  -- While the assistant speaks or a message of the user waits, the plan has no group; otherwise its
  -- groups together are the candidates that are ready, each as often as it is there.
  pub plan-perm :
      (cs : List NotificationCandidate) (busy waiting : Bool)
      → ((busy || waiting) ≡ true → (plan clock window now cs busy waiting).groups ≡ [])
        × ((busy || waiting) ≡ false
            → Perm (flatten (plan clock window now cs busy waiting).groups) (ready cs))
  plan-perm cs busy waiting = (
    λ quiet. unfold plan in ground arith,
    λ free. elim (Bool-cases (is_empty (keep is_pending cs))) [
      | inl nothing ↦ unfold plan flatten in rw (nothing, ready-none cs nothing) (Perm.refl [])
      | inr something ↦
          unfold plan in
          rw (something, free)
            (rw
              (
                flatten-append (singles (keep is_immediate (keep is_pending cs))) (
                    merged (
                      keep (is_due clock window now)
                        (keep (λ c. not (is_immediate c)) (keep is_pending cs)))),
                flatten-singles (keep is_immediate (keep is_pending cs)),
              )
              (Perm.append_left (keep is_immediate (keep is_pending cs)) (merged-perm _)))
    ],
  )

  due_later :
      (c : NotificationCandidate)
      → is_due clock window now c ≡ false
      → now < due_at clock window now c
  unfolding is_due
  due_later c h = ground arith

  next_due-cons :
      (shortest : Option ℕ) (c : NotificationCandidate) (cs : List NotificationCandidate)
      → next_due clock window now shortest (c ∷ cs)
        ≡ next_due clock window now
            (if is_due clock window now c
              then shortest
              else some (elim shortest [
                | none ↦ due_at clock window now c - now
                | some s ↦ min s (due_at clock window now c - now)
              ]))
            cs
  next_due-cons shortest c cs = unfold next_due in refl

  -- The announced wait is no longer than any that it is taken over.
  Within : Option ℕ → ℕ → Type 0
  Within none s = Unit {0}
  Within (some m) s = s ≤ m

  Waits : List NotificationCandidate → ℕ → Type 0
  Waits cs s = All (λ c. is_due clock window now c ≡ false → now + s ≤ due_at clock window now c) cs

  shorter :
      (shortest : Option ℕ) (d s : ℕ)
      → s ≤ elim shortest [ none ↦ d | some m ↦ min m d ]
      → Within shortest s × (s ≤ d)
  unfolding Within
  shorter none d s h = (tt, h)
  shorter (some m) d s h = omega arith

  next_due_bound :
      (shortest : Option ℕ) (cs : List NotificationCandidate) (s : ℕ)
      → next_due clock window now shortest cs ≡ some s
      → Within shortest s × Waits cs s
  unfolding Within Waits
  next_due_bound none [] s h = (tt, tt)
  next_due_bound (some m) [] s h = unfold next_due in (ground arith, tt)
  next_due_bound shortest (c ∷ cs) s h = elim (Bool-cases (is_due clock window now c)) [
    | inl due ↦
        let rest = next_due_bound shortest cs s (rw (next_due-cons, due) at h) in
        (rest.0, (λ e. absurd (false≢true (sym e ∙ due)), rest.1))
    | inr wait ↦
        let next : ℕ = elim shortest [
          | none ↦ due_at clock window now c - now
          | some m ↦ min m (due_at clock window now c - now)
        ] in
        let rest = next_due_bound (some next) cs s (rw (next_due-cons, wait) at h) in
        let both = shorter shortest (due_at clock window now c - now) s rest.0 in
        let later = due_later c wait in (both.0, (λ e. omega (arith, both.1), rest.1))
  ]

  -- If the plan announces a wait, no candidate that it leaves to merge becomes due before the wait is
  -- over.
  pub next_due_lem :
      (cs : List NotificationCandidate) (busy waiting : Bool) (s : ℕ)
      → (plan clock window now cs busy waiting).next_due_seconds ≡ some s
      → All
          (λ c. is_due clock window now c ≡ false → now + s ≤ due_at clock window now c)
          (keep (λ c. not (is_immediate c)) (keep is_pending cs))
  unfolding Waits
  next_due_lem cs busy waiting s h =
      (next_due_bound none (keep (λ c. not (is_immediate c)) (keep is_pending cs)) s
        (unfold plan in ground arith)).1
