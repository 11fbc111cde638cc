-- ===== src/Cluster/Groups.antt =====
-- The slices of nodes by type or cluster: append, and removal by swapping with the last.
-- A node is a pointer, a number.
use clustergo.Common.{
  ℕ, zero, suc, ◌+◌, ◌-◌, ◌<◌, ◌≡◌, refl, arith, Bool, true, false, List, [], ◌∷◌, ◌++◌, Option,
  none, some, ◌==◌, if◌then◌else◌, length, length-set, take, set, get_or, Option-cases, inl, inr,
  Bool-cases,
}
use clustergo.Common.Table.{Table, lookup, insert, lookup-insert, nat_eq}

abbrev pub Pointer : Type 0
Pointer = ℕ

abbrev pub bit : Bool → ℕ
bit true = 1
bit false = 0

abbrev pub count : Pointer → List Pointer → ℕ
count p [] = 0
count p (x ∷ xs) = bit (x == p) + count p xs

-- The index at which `range` first meets the pointer.
index_of : Pointer → List Pointer → Option ℕ
index_of p [] = none
index_of p (x ∷ xs) =
    let later = index_of p xs in
    if x == p then some 0 else elim later [ none ↦ none | some k ↦ some (suc k) ]

-- `a[k] = a[len(a)-1]; a = a[:len(a)-1]` at the first occurrence.
unfoldable pub swap_remove : Pointer → List Pointer → List Pointer
unfolding index_of
swap_remove p xs = elim (index_of p xs) [
  | none ↦ xs
  | some k ↦ take (length xs - 1) (set xs k (get_or xs (length xs - 1) 0))
]

-- A missing key reads as the empty slice.
unfoldable pub group : ℕ → Table ℕ (List Pointer) → List Pointer
group k t = elim (lookup k t) [ none ↦ [] | some xs ↦ xs ]

unfoldable pub add_to : ℕ → Pointer → Table ℕ (List Pointer) → Table ℕ (List Pointer)
add_to k p t = elim (lookup k t) [
  | none ↦ insert k (p ∷ []) t
  | some xs ↦ insert k (xs ++ (p ∷ [])) t
]

unfoldable pub remove_from : ℕ → Pointer → Table ℕ (List Pointer) → Table ℕ (List Pointer)
remove_from k p t = elim (lookup k t) [ none ↦ t | some xs ↦ insert k (swap_remove p xs) t ]

pub count-append :
    (q : Pointer) (xs ys : List Pointer) → count q (xs ++ ys) ≡ count q xs + count q ys
count-append q [] ys = omega arith
count-append q (x ∷ xs) ys = omega (arith, count-append q xs ys)

count-set :
    (q : Pointer) (xs : List Pointer) (k v : ℕ)
    → k < length xs
    → count q (set xs k v) + bit (get_or xs k 0 == q) ≡ count q xs + bit (v == q)
count-set q [] k v h = absurd (omega arith)
count-set q (x ∷ xs) zero v h = omega arith
count-set q (x ∷ xs) (suc k) v h = omega (arith, count-set q xs k v (omega arith))

-- All but the last.
count-take :
    (q : Pointer) (xs : List Pointer) (n : ℕ)
    → length xs ≡ suc n
    → count q (take n xs) + bit (get_or xs n 0 == q) ≡ count q xs
count-take q [] n h = absurd (omega arith)
count-take q (x ∷ []) zero h = omega arith
count-take q (x ∷ []) (suc n) h = absurd (omega arith)
count-take q (x ∷ y ∷ xs) zero h = absurd (omega arith)
count-take q (x ∷ y ∷ xs) (suc n) h = omega (arith, count-take q (y ∷ xs) n (omega arith))

set_get :
    (xs : List Pointer) (k j : ℕ)
    → k < length xs
    → get_or (set xs k (get_or xs j 0)) j 0 ≡ get_or xs j 0
set_get [] k j h = absurd (omega arith)
set_get (x ∷ xs) zero zero h = refl
set_get (x ∷ xs) zero (suc j) h = refl
set_get (x ∷ xs) (suc k) zero h = refl
set_get (x ∷ xs) (suc k) (suc j) h = set_get xs k j (omega arith)

index_of_found :
    (p : Pointer) (xs : List Pointer) (k : ℕ)
    → index_of p xs ≡ some k
    → (k < length xs) × (get_or xs k 0 ≡ p)
unfolding index_of
index_of_found p [] k e = cc
index_of_found p (x ∷ xs) k e = elim (Bool-cases (x == p)) [
  | inl hit ↦ ground arith
  | inr miss ↦ elim (Option-cases (index_of p xs)) [
    | inl n ↦ absurd (ground arith)
    | inr (j, s) ↦ let (b, g) = index_of_found p xs j s in ground (arith, b, g)
  ]
]

index_of_missing : (p : Pointer) (xs : List Pointer) → index_of p xs ≡ none → count p xs ≡ 0
unfolding index_of
index_of_missing p [] e = refl
index_of_missing p (x ∷ xs) e = ground (arith, index_of_missing p xs)

-- Removal takes out one occurrence, if there is one, and nothing else.
pub count-swap_remove :
    (p q : Pointer) (xs : List Pointer)
    → count q (swap_remove p xs) ≡ (if p == q then count q xs - 1 else count q xs)
unfolding swap_remove
count-swap_remove p q xs = elim (Option-cases (index_of p xs)) [
  | inl e ↦ ground (arith, e, index_of_missing p xs e)
  | inr (k, e) ↦
      let (b, g) = index_of_found p xs k e in
      let last = get_or xs (length xs - 1) 0 in
      ground (
        arith,
        e,
        g,
        count-set q xs k last b,
        count-take q (set xs k last) (length xs - 1) (omega (arith, length-set xs k last)),
        set_get xs k (length xs - 1) b,
      )
]

pub group-add_to :
    (k j : ℕ) (p : Pointer) (t : Table ℕ (List Pointer))
    → group j (add_to k p t) ≡ (if k == j then group j t ++ (p ∷ []) else group j t)
unfolding group add_to
group-add_to k j p t = elim (Option-cases (lookup k t)) [
  | inl e ↦ ground (arith, e, lookup-insert k j (p ∷ []) t)
  | inr (xs, e) ↦ ground (arith, e, lookup-insert k j (xs ++ (p ∷ [])) t)
]

swap_remove-nil : (p : Pointer) → swap_remove p [] ≡ []
unfolding swap_remove
swap_remove-nil p = refl

pub group-remove_from :
    (k j : ℕ) (p : Pointer) (t : Table ℕ (List Pointer))
    → group j (remove_from k p t) ≡ (if k == j then swap_remove p (group j t) else group j t)
unfolding group remove_from
group-remove_from k j p t = elim (Option-cases (lookup k t)) [
  | inl e ↦ ground (arith, e, swap_remove-nil p)
  | inr (xs, e) ↦ ground (arith, e, lookup-insert k j (swap_remove p xs) t)
]
