-- ===== src/Prelude/Dict.antt =====
-- A Python `dict` with text keys: an association list in insertion order. A write to a key that is
-- there keeps its place, a write to a new key goes to the end.
use mathlib.Core.Path.{◌≡◌, refl}
use mathlib.Core.Bool.{false}
use mathlib.Core.Option.{Option, none, some}
use mathlib.Core.List.{List, [], ◌∷◌, ◌++◌, map}
use Prim.Native.String.{String}
use native.Mathlib.Omega.{arith}
use newbro.Prelude.Tests.{if◌then◌else◌, is_some}
use newbro.Prelude.Text.{◌==◌, eq_iff}

abbrev pub Dict {ℓ} : Type ℓ → Type ℓ
Dict V = List (String × V)

module _ {ℓ} {V : Type ℓ} where
  -- `d.get(k)`
  unfoldable pub get : String → Dict V → Option V
  get k [] = none
  get k ((j, v) ∷ d) = if j == k then some v else get k d

  -- `d[k] = v`
  unfoldable pub put : String → V → Dict V → Dict V
  put k v [] = (k, v) ∷ []
  put k v ((j, w) ∷ d) = if j == k then (j, v) ∷ d else (j, w) ∷ put k v d

  -- `d.pop(k, None)`
  unfoldable pub pop : String → Dict V → Dict V
  pop k [] = []
  pop k ((j, w) ∷ d) = if j == k then d else (j, w) ∷ pop k d

  abbrev pub keys : Dict V → List String
  keys d = map (λ e. e.0) d

  abbrev pub values : Dict V → List V
  values d = map (λ e. e.1) d

  -- No key of the dict is `k`.
  abbrev pub Misses : String → Dict V → Type 0
  Misses k [] = Unit
  Misses k ((j, w) ∷ d) = ((j == k) ≡ false) × Misses k d

  -- No key stands twice.
  abbrev pub IsDict : Dict V → Type 0
  IsDict [] = Unit
  IsDict ((j, w) ∷ d) = Misses j d × IsDict d

  pub get-put :
      (k j : String) (v : V) (d : Dict V) → get j (put k v d) ≡ (if k == j then some v else get j d)
  unfolding get put
  get-put k j v [] = refl
  get-put k j v ((i, w) ∷ d) = ground (arith, eq_iff k j, eq_iff i k, eq_iff i j, get-put k j v d)

  pub get_of_Misses : (k : String) (d : Dict V) → Misses k d → get k d ≡ none
  unfolding get
  get_of_Misses k [] m = refl
  get_of_Misses k ((j, w) ∷ d) m = ground (arith, get_of_Misses k d m.1)

  pub Misses-get : (k : String) (d : Dict V) → get k d ≡ none → Misses k d
  unfolding get
  Misses-get k [] h = tt
  Misses-get k ((j, w) ∷ d) h = ground (arith, Misses-get k d)

  pub put-Misses :
      (k j : String) (v : V) (d : Dict V) → Misses j d → (k == j) ≡ false → Misses j (put k v d)
  unfolding put
  put-Misses k j v [] m h = (h, tt)
  put-Misses k j v ((i, w) ∷ d) m h = ground (arith, put-Misses k j v d m.1 h)

  pub put-IsDict : (k : String) (v : V) (d : Dict V) → IsDict d → IsDict (put k v d)
  unfolding put
  put-IsDict k v [] h = (tt, tt)
  put-IsDict k v ((j, w) ∷ d) h =
      ground (arith, put-IsDict k v d h.1, put-Misses k j v d h.0, eq_iff j k, eq_iff k j)

  pub pop-Misses : (k j : String) (d : Dict V) → Misses j d → Misses j (pop k d)
  unfolding pop
  pop-Misses k j [] m = tt
  pop-Misses k j ((i, w) ∷ d) m = ground (arith, pop-Misses k j d m.1)

  pub pop-IsDict : (k : String) (d : Dict V) → IsDict d → IsDict (pop k d)
  unfolding pop
  pop-IsDict k [] h = tt
  pop-IsDict k ((j, w) ∷ d) h = ground (arith, pop-IsDict k d h.1, pop-Misses k j d h.0)

  pub get-pop :
      (k j : String) (d : Dict V) → IsDict d → get j (pop k d) ≡ (if k == j then none else get j d)
  unfolding get pop
  get-pop k j [] h = ground arith
  get-pop k j ((i, w) ∷ d) h = ground (
    arith,
    eq_iff k j,
    eq_iff i k,
    eq_iff i j,
    get-pop k j d h.1,
    get_of_Misses i d h.0,
    get_of_Misses k d,
  )

  -- The keys after a write: the same, or one more at the end.
  pub keys-put :
      (k : String) (v : V) (d : Dict V)
      → keys (put k v d) ≡ (if is_some (get k d) then keys d else keys d ++ k ∷ [])
  unfolding get put
  keys-put k v [] = refl
  keys-put k v ((j, w) ∷ d) = ground (arith, keys-put k v d)
