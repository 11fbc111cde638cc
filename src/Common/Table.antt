-- ===== src/Common/Table.antt =====
-- A Go map as an association list, over any key type with a Boolean equality.
use clustergo.Common.Tests.{◌==◌ as nat_beq, ==_iff, if◌then◌else◌, Bool-cases}
use Prim.Native.Nat.{ℕ}
use mathlib.Core.Path.{◌≡◌, refl, sym, ap, ◌∙◌, subst}
use mathlib.Core.Logic.{◌↔◌, inl, inr}
use mathlib.Core.Bool.{Bool, true, false, ◌&&◌}
use mathlib.Core.Option.{Option, none, some}
use mathlib.Core.List.{List, [], ◌∷◌}
use native.Mathlib.Omega.{arith}

pub record Eq {ℓ} (A : Type ℓ) : Type ℓ where
  pub beq : A → A → Bool
  pub beq_iff : (a b : A) → (beq a b ≡ true) ↔ (a ≡ b)

instance abbrev pub nat_eq : Eq ℕ
nat_eq = record { beq = nat_beq; beq_iff = ==_iff }

-- Byte strings: method names, type names and keys.
abbrev pub bytes_beq : List ℕ → List ℕ → Bool
bytes_beq [] [] = true
bytes_beq (x ∷ xs) (y ∷ ys) = nat_beq x y && bytes_beq xs ys
bytes_beq _ _ = false

pub bytes_beq_iff : (a b : List ℕ) → (bytes_beq a b ≡ true) ↔ (a ≡ b)
bytes_beq_iff [] [] = ground arith
bytes_beq_iff [] (y ∷ ys) = ground arith
bytes_beq_iff (x ∷ xs) [] = ground arith
bytes_beq_iff (x ∷ xs) (y ∷ ys) = ground (arith, bytes_beq_iff xs ys)

instance abbrev pub bytes_eq : Eq (List ℕ)
bytes_eq = record { beq = bytes_beq; beq_iff = bytes_beq_iff }

abbrev pub Table {ℓ κ} : Type ℓ → Type κ → Type (ℓ ⊔ κ)
Table K V = List (K × V)

module _ {ℓ κ} {K : Type ℓ} {V : Type κ} ⦃e : Eq K⦄ where
  unfoldable pub lookup : K → Table K V → Option V
  lookup k [] = none
  lookup k ((j, v) ∷ t) = if e.beq j k then some v else lookup k t

  unfoldable pub insert : K → V → Table K V → Table K V
  insert k v [] = (k, v) ∷ []
  insert k v ((j, w) ∷ t) = if e.beq j k then (k, v) ∷ t else (j, w) ∷ insert k v t

  unfoldable pub delete : K → Table K V → Table K V
  delete k [] = []
  delete k ((j, w) ∷ t) = if e.beq j k then delete k t else (j, w) ∷ delete k t

  pub lookup-insert :
      (k j : K) (v : V) (t : Table K V)
      → lookup j (insert k v t) ≡ (if e.beq k j then some v else lookup j t)
  unfolding lookup insert
  lookup-insert k j v [] = refl
  lookup-insert k j v ((i, w) ∷ t) =
      ground (arith, e.beq_iff k j, e.beq_iff i k, e.beq_iff i j, lookup-insert k j v t)

  pub lookup-delete :
      (k j : K) (t : Table K V) → lookup j (delete k t) ≡ (if e.beq k j then none else lookup j t)
  unfolding lookup delete
  lookup-delete k j [] = ground arith
  lookup-delete k j ((i, w) ∷ t) =
      ground (arith, e.beq_iff k j, e.beq_iff i k, e.beq_iff i j, lookup-delete k j t)

  -- No key stands twice.
  abbrev pub Unique : Table K V → Type (ℓ ⊔ κ)
  Unique [] = Unit
  Unique ((k, v) ∷ t) = (lookup k t ≡ none) × Unique t

  pub insert-Unique : (k : K) (v : V) (t : Table K V) → Unique t → Unique (insert k v t)
  unfolding lookup insert
  insert-Unique k v [] u = (refl, tt)
  insert-Unique k v ((j, w) ∷ t) (h, u) = elim (Bool-cases (e.beq j k)) [
    | inl same ↦
        let eq : j ≡ k = (e.beq_iff j k).0 same in rw same (ap (λ i. lookup i t) (sym eq) ∙ h, u)
    | inr differ ↦ rw differ (
      lookup-insert k j v t ∙ ground (arith, e.beq_iff k j, e.beq_iff j k),
      insert-Unique k v t u,
    )
  ]

  abbrev pub AllPairs {μ} : (K → V → Type μ) → Table K V → Type μ
  AllPairs P [] = Unit
  AllPairs P ((k, v) ∷ t) = P k v × AllPairs P t

  pub AllPairs-insert {μ} :
      (P : K → V → Type μ) (k : K) (v : V) (t : Table K V)
      → P k v
      → AllPairs P t
      → AllPairs P (insert k v t)
  unfolding insert
  AllPairs-insert P k v [] p h = (p, tt)
  AllPairs-insert P k v ((j, w) ∷ t) p (h, hs) = elim (Bool-cases (e.beq j k)) [
    | inl same ↦ rw same (p, hs)
    | inr differ ↦ rw differ (h, AllPairs-insert P k v t p hs)
  ]

  pub AllPairs-lookup {μ} :
      (P : K → V → Type μ) (k : K) (v : V) (t : Table K V)
      → AllPairs P t
      → lookup k t ≡ some v
      → P k v
  unfolding lookup
  AllPairs-lookup P k v [] h e' = absurd (ground arith)
  AllPairs-lookup P k v ((j, w) ∷ t) (h, hs) e' = elim (Bool-cases (e.beq j k)) [
    | inl same ↦
        let key : j ≡ k = (e.beq_iff j k).0 same in
        let value : w ≡ v = ground (arith, same, e') in subst (λ i. P i v) key (subst (P j) value h)
    | inr differ ↦ AllPairs-lookup P k v t hs (ground (arith, differ, e'))
  ]
