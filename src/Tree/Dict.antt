-- ===== src/Tree/Dict.antt =====
-- A map from C ints (`std::unordered_map<int, V>`). The list's order stands for the order of the
-- iteration.
use ppsp.Common.{◌≡◌, ◌≢◌, Option, none, some, List, [], ◌∷◌, arith, if◌then◌else◌}
use ppsp.Common.Int.{ℤ, eqb_ℤ, eqb_ℤ_iff}

abbrev pub Dict {ℓ} : Type ℓ → Type ℓ
Dict V = List (ℤ × V)

module _ {ℓ} {V : Type ℓ} where
  abbrev pub lookup : ℤ → Dict V → Option V
  lookup k [] = none
  lookup k ((j, v) ∷ d) = if eqb_ℤ k j then some v else lookup k d

  -- `map[k] = v`
  abbrev pub insert : ℤ → V → Dict V → Dict V
  insert k v [] = (k, v) ∷ []
  insert k v (e ∷ d) = if eqb_ℤ k e.0 then (k, v) ∷ d else e ∷ insert k v d

  -- `map.erase(k)`
  abbrev pub erase : ℤ → Dict V → Dict V
  erase k [] = []
  erase k (e ∷ d) = if eqb_ℤ k e.0 then d else e ∷ erase k d

  -- A change of the value under `k`, where there is one.
  abbrev pub update : ℤ → (V → V) → Dict V → Dict V
  update k f [] = []
  update k f (e ∷ d) = if eqb_ℤ k e.0 then (e.0, f e.1) ∷ d else e ∷ update k f d

  -- `if (map.find(k) == map.end()) map[k] = v;`
  abbrev pub insert_absent : ℤ → V → Dict V → Dict V
  insert_absent k v d = elim (lookup k d) [ none ↦ insert k v d | some _ ↦ d ]

  pub lookup-insert_self : (k : ℤ) (v : V) (d : Dict V) → lookup k (insert k v d) ≡ some v
  lookup-insert_self k v [] = ground (arith, eqb_ℤ_iff k k)
  lookup-insert_self k v (e ∷ d) =
      ground (arith, eqb_ℤ_iff k k, eqb_ℤ_iff k e.0, lookup-insert_self k v d)

  pub lookup-insert_ne :
      (j k : ℤ) (v : V) (d : Dict V) → j ≢ k → lookup j (insert k v d) ≡ lookup j d
  lookup-insert_ne j k v [] h = ground (arith, eqb_ℤ_iff j k)
  lookup-insert_ne j k v (e ∷ d) h =
      ground (arith, eqb_ℤ_iff j k, eqb_ℤ_iff k e.0, lookup-insert_ne j k v d h)
