-- ===== src/Run/Orbit.antt =====
-- The walk of a generator through Z_n: `n` steps from any start meet no place twice.
use sealloc.Base.{ℕ, ◌+◌, ◌-◌, ◌*◌, ◌/◌, ◌%◌, ◌<◌, ◌≡◌, ◌≢◌, arith, ap, sym, ◌∙◌}
use native.Mathlib.Nat.{mul-sub, div-add-mod, mul-mod_right, add-mod-mod, mod-eq_of_lt}
use sealloc.Generator.Table.{Generates}

-- The place after `i` steps of `g` from `start`.
unfoldable pub place : ℕ → ℕ → ℕ → ℕ → ℕ
place n g start i = (start + i * g) % n

same_mod : (n a d : ℕ) → 0 < n → (a + d) % n ≡ a % n → d % n ≡ 0
same_mod n a d p e =
    let q = (a + d) / n in
    let r = a / n in
    let f : d ≡ n * (q - r) =
      omega (arith, mul-sub n q r, div-add-mod (a + d) n, div-add-mod a n) in
    ap (λ (t : ℕ). t % n) f ∙ mul-mod_right n (q - r)

pub place-lt : (n g start i : ℕ) → 0 < n → place n g start i < n
unfolding place
place-lt n g start i p = omega arith

pub place-distinct :
    (n g start i j : ℕ) → Generates g n → i < j → j < i + n → place n g start i ≢ place n g start j
unfolding place
place-distinct n g start i j gen lt near e =
    gen.no_cycle (j - i) (omega arith) (omega arith)
      (same_mod n (start + i * g) ((j - i) * g) gen.pos (ap (λ (t : ℕ). t % n) walk ∙ sym e))
  where
    walk : start + i * g + (j - i) * g ≡ start + j * g
    walk = let f : j ≡ i + (j - i) = omega arith in omega (arith, ap (λ (t : ℕ). t * g) f)

pub place-suc : (n g start i : ℕ) → 0 < n → (g + place n g start i) % n ≡ place n g start (i + 1)
unfolding place
place-suc n g start i p = add-mod-mod g (start + i * g) n ∙ ap (λ (t : ℕ). t % n) (omega arith)

pub place-zero : (n g c : ℕ) → c < n → place n g c 0 ≡ c
unfolding place
place-zero n g c h = ap (λ (t : ℕ). t % n) (omega arith) ∙ mod-eq_of_lt h
