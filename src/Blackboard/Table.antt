-- ===== src/Blackboard/Table.antt =====
-- blackboard/backends/memory.py: a dict of records beside the list of their ids in the order in
-- which they were first put, as the store keeps candidates, turn requests, interaction requests,
-- attention items and agent events.
use newbro.Prelude.{
  String, List, [], ◌∷◌, ◌++◌, map, ◌≡◌, refl, Bool, true, Option, none, some, arith, if◌then◌else◌,
  is_some, any,
}
use newbro.Prelude.Text.{eq_refl, eq_iff}
use newbro.Prelude.Dict as D
use newbro.Prelude.Dict.{Dict, keys, values, IsDict, Misses}

pub record Table {ℓ} (V : Type ℓ) : Type ℓ where
  pub entries : Dict V
  pub order : List String

module _ {ℓ} {V : Type ℓ} where
  abbrev pub empty : Table V
  empty = record { entries = []; order = [] }

  unfoldable pub put : String → V → Table V → Table V
  put k v t = record {
    entries = D.put k v t.entries;
    order = if is_some (D.get k t.entries) then t.order else t.order ++ k ∷ [];
  }

  unfoldable pub get : String → Table V → Option V
  get k t = D.get k t.entries

  -- `[entries[k] for k in order if k in entries]`
  select : List String → Dict V → List V
  select [] d = []
  select (k ∷ ks) d = let rest = select ks d in elim (D.get k d) [ none ↦ rest | some v ↦ v ∷ rest ]

  unfoldable pub list : Table V → List V
  unfolding select
  list t = select t.order t.entries

  -- The order holds the ids of the entries, each once.
  pub record IsTable (t : Table V) : Type ℓ where
    pub ordered : t.order ≡ keys t.entries
    pub distinct : IsDict t.entries

  pub put-IsTable : (k : String) (v : V) {t : Table V} → IsTable t → IsTable (put k v t)
  unfolding put
  put-IsTable k v {t} h = record {
    ordered = ground (arith, D.keys-put k v t.entries, h.ordered);
    distinct = D.put-IsDict k v t.entries h.distinct;
  }

  select-skip :
      (ks : List String) (k : String) (v : V) (d : Dict V)
      → Misses k (map (λ j. (j, v)) ks)
      → select ks ((k, v) ∷ d) ≡ select ks d
  unfolding select D.get
  select-skip [] k v d m = refl
  select-skip (j ∷ ks) k v d m = ground (arith, select-skip ks k v d m.1, eq_iff k j, eq_iff j k)

  Misses-keys :
      (k : String) (v : V) (d : Dict V) → Misses k d → Misses k (map (λ j. (j, v)) (keys d))
  Misses-keys k v [] m = tt
  Misses-keys k v ((j, w) ∷ d) m = (m.0, Misses-keys k v d m.1)

  select-keys : (d : Dict V) → IsDict d → select (keys d) d ≡ values d
  unfolding select D.get
  select-keys [] h = refl
  select-keys ((k, v) ∷ d) h =
      ground
        (arith, eq_refl k, select-skip (keys d) k v d (Misses-keys k v d h.0), select-keys d h.1)

  -- The listing is that of the dict's own values: nothing is left out and nothing listed twice.
  pub list-eq-values : (t : Table V) → IsTable t → list t ≡ values t.entries
  unfolding list
  list-eq-values t h = rw h.ordered (select-keys t.entries h.distinct)

  any-put :
      (p : V → Bool) (k : String) (v : V) (d : Dict V)
      → p v ≡ true
      → any p (values (D.put k v d)) ≡ true
  unfolding any D.put
  any-put p k v [] h = rw h refl
  any-put p k v ((j, w) ∷ d) h = ground (arith, any-put p k v d h)

  -- A record that was put is listed.
  pub any-list-put :
      (p : V → Bool) (k : String) (v : V) (t : Table V)
      → IsTable t
      → p v ≡ true
      → any p (list (put k v t)) ≡ true
  any-list-put p k v t h e =
      rw (list-eq-values (put k v t) (put-IsTable k v h)) (unfold put in any-put p k v t.entries e)
