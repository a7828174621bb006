-- ===== src/Node/Quiet.antt =====
-- Computations on the node that return and leave the peer list alone.
use peernet_core.Prelude.{◌≡◌, refl, ◌∙◌, Bool, true, false, some, if◌then◌else◌}
use peernet_core.Node.{Node, M, pure, ◌>>=◌, gets, bind_step}

module _ {K : Type 0} where
  abbrev pub IsQuiet : {A : Type 0} → M K A → Type 0
  IsQuiet {A} m =
      (n : Node K) → (a : A) × (n' : Node K) × (m n ≡ some (a, n')) × (n'.peer_list ≡ n.peer_list)

  pub bind-IsQuiet :
      {A B : Type 0} (m : M K A) (f : A → M K B)
      → IsQuiet m
      → ((a : A) → IsQuiet (f a))
      → IsQuiet (m >>= f)
  bind-IsQuiet m f hm hf n =
      let (a, n₁, e₁, s₁) = hm n in
      let (b, n₂, e₂, s₂) = hf a n₁ in (b, n₂, bind_step m f n e₁ ∙ e₂, s₂ ∙ s₁)

  pub pure-IsQuiet : {A : Type 0} (a : A) → IsQuiet (pure a)
  pure-IsQuiet a n = (a, n, refl, refl)

  pub gets-IsQuiet : {A : Type 0} (f : Node K → A) → IsQuiet (gets f)
  gets-IsQuiet f n = (f n, n, refl, refl)

  pub if-IsQuiet :
      {A : Type 0} (b : Bool) (l r : M K A) → IsQuiet l → IsQuiet r → IsQuiet (if b then l else r)
  if-IsQuiet true l r hl hr = hl
  if-IsQuiet false l r hl hr = hr
