-- ===== src/Base/Effect.antt =====
-- C++ code that changes a state and may throw: an exception skips what follows and keeps the changes
-- that were made before it.
use oj_vibe_coding.Base.Result.{Exception, Result, ok, err}

abbrev pub Effect {ℓ κ} : Type ℓ → Type κ → Type (ℓ ⊔ κ)
Effect W A = W → Result A × W

abbrev pub pure {ℓ κ} : {W : Type ℓ} {A : Type κ} → A → Effect W A
pure a w = (ok a, w)

abbrev pub throw {ℓ κ} : {W : Type ℓ} {A : Type κ} → Exception → Effect W A
throw e w = (err e, w)

abbrev pub from_result {ℓ κ} : {W : Type ℓ} {A : Type κ} → Result A → Effect W A
from_result r w = (r, w)

abbrev pub gets {ℓ κ} : {W : Type ℓ} {A : Type κ} → (W → A) → Effect W A
gets read w = (ok (read w), w)

unfoldable pub continue {ℓ κ μ} :
    {W : Type ℓ} {A : Type κ} {B : Type μ} → (A → Effect W B) → Result A × W → Result B × W
continue next (err e, w) = (err e, w)
continue next (ok a, w) = next a w

infixl 5 ◌>>=◌ ◌>>◌
unfoldable pub ◌>>=◌ {ℓ κ μ} :
    {W : Type ℓ} {A : Type κ} {B : Type μ} → Effect W A → (A → Effect W B) → Effect W B
(first >>= next) w = continue next (first w)

unfoldable pub ◌>>◌ {ℓ κ} :
    {W : Type ℓ} {B : Type κ} → Effect W (Unit {0}) → Effect W B → Effect W B
(first >> next) w = continue (λ done. next) (first w)

unfoldable pub resume {ℓ κ μ} :
    {W : Type ℓ} {A : Type κ} {B : Type μ}
    → (Exception → Effect W B)
    → (A → Effect W B)
    → Result A × W
    → Result B × W
resume failed done (err e, w) = failed e w
resume failed done (ok a, w) = done a w

-- `try { first } catch (const std::exception& e) { return failed(e); }`, and what follows.
unfoldable pub attempt {ℓ κ μ} :
    {W : Type ℓ} {A : Type κ} {B : Type μ}
    → Effect W A
    → (Exception → Effect W B)
    → (A → Effect W B)
    → Effect W B
attempt first failed done w = resume failed done (first w)
