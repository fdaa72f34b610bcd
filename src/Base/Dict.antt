-- ===== src/Base/Dict.antt =====
-- Python's `dict` in insertion order. A write to a present key keeps its place.
use mathlib.Core.Path.{◌≡◌, refl}
use mathlib.Core.Option.{Option, none, some}
use mathlib.Core.List.{List, [], ◌∷◌}
use native.Mathlib.Omega.{arith}
use worktree_review.Base.Tests.{if◌then◌else◌}
use worktree_review.Base.Equality.{Eq, ◌==◌}

abbrev pub Dict {ℓ κ} : Type ℓ → Type κ → Type (ℓ ⊔ κ)
Dict K V = List (K × V)

-- `d.values()`
abbrev pub values {ℓ κ} : {K : Type ℓ} {V : Type κ} → Dict K V → List V
values [] = []
values ((k, v) ∷ d) = v ∷ values d

-- Assigning to the objects that the values are: every value is replaced, the keys stay.
unfoldable pub map_values {ℓ κ} : {K : Type ℓ} {V : Type κ} → (V → V) → Dict K V → Dict K V
map_values f [] = []
map_values f ((k, v) ∷ d) = (k, f v) ∷ map_values f d

module _ {ℓ κ} {K : Type ℓ} {V : Type κ} ⦃e : Eq K⦄ where
  -- `d.get(k)`
  unfoldable pub get : Dict K V → K → Option V
  get [] k = none
  get ((j, v) ∷ d) k = if j == k then some v else get d k

  -- `d[k] = v`
  unfoldable pub put : Dict K V → K → V → Dict K V
  put [] k v = (k, v) ∷ []
  put ((j, w) ∷ d) k v = if j == k then (j, v) ∷ d else (j, w) ∷ put d k v

  pub get-nil : (k : K) → get [] k ≡ none
  unfolding get
  get-nil k = refl

  pub get-put :
      (d : Dict K V) (k j : K) (v : V) → get (put d k v) j ≡ (if k == j then some v else get d j)
  unfolding get put
  get-put [] k j v = ground arith
  get-put ((i, w) ∷ d) k j v = ground (arith, get-put d k j v)

  pub get-put_self : (d : Dict K V) (k : K) (v : V) → get (put d k v) k ≡ some v
  get-put_self d k v = ground (arith, get-put d k k v)

  -- No key stands twice, as in every `dict`.
  abbrev pub NodupKeys : Dict K V → Type κ
  NodupKeys [] = Unit
  NodupKeys ((k, v) ∷ d) = (get d k ≡ none) × NodupKeys d

  pub put-NodupKeys : (d : Dict K V) (k : K) (v : V) → NodupKeys d → NodupKeys (put d k v)
  unfolding get put
  put-NodupKeys [] k v h = (refl, tt)
  put-NodupKeys ((j, w) ∷ d) k v h = ground (arith, put-NodupKeys d k v h.1, get-put d k j v)

  -- Every entry of the first is what the second holds under its key.
  abbrev pub Within : Dict K V → Dict K V → Type κ
  Within [] d = Unit
  Within ((k, v) ∷ r) d = (get d k ≡ some v) × Within r d

  Within-cons :
      (r d : Dict K V) (j : K) (w : V) → get d j ≡ none → Within r d → Within r ((j, w) ∷ d)
  unfolding get
  Within-cons [] d j w n h = tt
  Within-cons ((k, v) ∷ r) d j w n h = ground (arith, Within-cons r d j w n h.1)

  pub Within-self : (d : Dict K V) → NodupKeys d → Within d d
  unfolding get
  Within-self [] h = tt
  Within-self ((k, v) ∷ d) h = ground (arith, Within-cons d d k v h.0 (Within-self d h.1))

  pub Within-put :
      (r d : Dict K V) (k : K) (v : V) → get r k ≡ none → Within r d → Within r (put d k v)
  unfolding get
  Within-put [] d k v n h = tt
  Within-put ((j, w) ∷ r) d k v n h = ground (arith, Within-put r d k v, get-put d k j v)
