-- ===== src/Pool/Totals.antt =====
-- Sums over the miners, and the loops that compute them modulo 2 ^ 64 in any order of the visits.
use mathlib.Core.List.{Perm, Permᴰ}
use native.Mathlib.Nat.{ℕ_set}
use mathlib.Core.Logic.{∥∥₁_elim}
use red_team_coin.Base.{
  ℕ, ◌+◌, ◌%◌, ◌^◌, ◌<◌, ◌≡◌, refl, ap, ◌∙◌, Bool, ◌&&◌, List, [], ◌∷◌, arith, map, length,
  if◌then◌else◌, I64, Bool-cases, inl, inr,
}
use red_team_coin.Pool.{Float64, MinerRecord}
use red_team_coin.Pool.Statistics.{is_active, for_miners, add_if}

-- The sum of a quantity over the items of a list.
abbrev pub sum_over {ℓ} : {A : Type ℓ} → (A → ℕ) → List A → ℕ
sum_over f [] = 0
sum_over f (m ∷ ms) = f m + sum_over f ms

pub sum_over-map {ℓ κ} :
    {A : Type ℓ} {B : Type κ} (f : B → ℕ) (g : A → B) (xs : List A)
    → sum_over f (map g xs) ≡ sum_over (λ x. f (g x)) xs
sum_over-map f g [] = refl
sum_over-map f g (x ∷ xs) = ap (λ n. f (g x) + n) (sum_over-map f g xs)

pub sum_over-length {ℓ} : {A : Type ℓ} (xs : List A) → sum_over (λ x. 1) xs ≡ length xs
sum_over-length [] = refl
sum_over-length (x ∷ xs) = omega (arith, sum_over-length xs)

abbrev pub if_active : ℕ → (MinerRecord → ℕ) → MinerRecord → ℕ
if_active now f m = if is_active now m then f m else 0

-- A variable of a loop that grows by one quantity holds the sum in the end.
for_miners-sum {ℓ} :
    {S : Type ℓ} (body : MinerRecord → S → S) (f : MinerRecord → ℕ) (var : S → I64)
    → ((m : MinerRecord) (s : S) → var s < 2 ^ 64 → var (body m s) ≡ (var s + f m) % 2 ^ 64)
    → (visits : List MinerRecord) (s : S) → var s < 2 ^ 64
    → var (for_miners body visits s) ≡ (var s + sum_over f visits) % 2 ^ 64
unfolding for_miners
for_miners-sum body f var grows [] s h = omega arith
for_miners-sum body f var grows (m ∷ visits) s h =
    let one = grows m s h in
    omega (arith, for_miners-sum body f var grows visits (body m s) (omega (arith, one)), one)

sum_over-Permᴰ {ℓ} :
    {A : Type ℓ} (f : A → ℕ) {xs ys : List A} → Permᴰ xs ys → sum_over f xs ≡ sum_over f ys
sum_over-Permᴰ f Permᴰ.nil = refl
sum_over-Permᴰ f (Permᴰ.cons e p) = omega (arith, ap f e, sum_over-Permᴰ f p)
sum_over-Permᴰ f (Permᴰ.swap d e) = omega (arith, ap f d, ap f e)
sum_over-Permᴰ f (Permᴰ.trans p q) = sum_over-Permᴰ f p ∙ sum_over-Permᴰ f q

pub sum_over-perm {ℓ} :
    {A : Type ℓ} (f : A → ℕ) {xs ys : List A} → Perm xs ys → sum_over f xs ≡ sum_over f ys
sum_over-perm f p = ∥∥₁_elim p (ℕ_set _ _) (λ q. sum_over-Permᴰ f q)

-- A variable that starts at 0, for any order of the visits.
pub for_miners-total {ℓ} :
    {S : Type ℓ} (body : MinerRecord → S → S) (f : MinerRecord → ℕ) (var : S → I64)
    → ((m : MinerRecord) (s : S) → var s < 2 ^ 64 → var (body m s) ≡ (var s + f m) % 2 ^ 64)
    → (s : S) → var s ≡ 0
    → {visits miners : List MinerRecord} → Perm visits miners
    → var (for_miners body visits s) ≡ sum_over f miners % 2 ^ 64
for_miners-total body f var grows s zero_first {visits} p = omega (
  arith,
  zero_first,
  for_miners-sum body f var grows visits s (omega (arith, zero_first)),
  sum_over-perm f p,
)

pub add_if-active :
    (now : ℕ) (f : MinerRecord → ℕ) (m : MinerRecord) (total : I64)
    → total < 2 ^ 64
    → add_if (is_active now m) total (f m) ≡ (total + if_active now f m) % 2 ^ 64
add_if-active now f m total h = ground arith

abbrev pub one : MinerRecord → ℕ
one m = 1

abbrev pub flag : Bool → ℕ
flag b = if b then 1 else 0

pub add_if-flag :
    (a b : Bool) (total : I64)
    → total < 2 ^ 64
    → add_if (a && b) total 1 ≡ (total + (if a then flag b else 0)) % 2 ^ 64
add_if-flag a b total h = ground arith

-- The numbers added up one after the other, as float64 are.
abbrev pub add_up : (Float64 → Float64 → Float64) → Float64 → List Float64 → Float64
add_up add total [] = total
add_up add total (x ∷ xs) = add_up add (add total x) xs

-- The CPU usage of the miners that are active, in the order of a list.
abbrev pub active_usages : ℕ → List MinerRecord → List Float64
active_usages now [] = []
active_usages now (m ∷ ms) =
    let later = active_usages now ms in
    if is_active now m then m.cpu_usage_percent ∷ later else later

-- A variable of a loop to which the usage of the active miners is added.
pub for_miners-usage {ℓ} :
    {S : Type ℓ} (add : Float64 → Float64 → Float64) (now : ℕ) (body : MinerRecord → S → S)
    (var : S → Float64)
    → ((m : MinerRecord) (s : S)
        → var (body m s) ≡ (if is_active now m then add (var s) m.cpu_usage_percent else var s))
    → (visits : List MinerRecord) (s : S)
    → var (for_miners body visits s) ≡ add_up add (var s) (active_usages now visits)
unfolding for_miners
for_miners-usage add now body var grows [] s = refl
for_miners-usage add now body var grows (m ∷ visits) s =
    let rest = for_miners-usage add now body var grows visits (body m s) in
    let one = grows m s in
    elim (Bool-cases (is_active now m)) [
      | inl e ↦
          let step : var (body m s) ≡ add (var s) m.cpu_usage_percent = rw e at one in
          rest ∙ ap (λ x. add_up add x (active_usages now visits)) step ∙ rw e refl
      | inr e ↦
          let step : var (body m s) ≡ var s = rw e at one in
          rest ∙ ap (λ x. add_up add x (active_usages now visits)) step ∙ rw e refl
    ]
