-- ===== src/Device/Lift.antt =====
-- The results of steps in one part of a device's world, as results on the whole world.
use net_hive.Prelude.{◌≡◌, Option, none, some, Result, ok, err}

unfoldable pub lift : {E E' A V W : Type 0} → (E → E') → (V → W) → Result E A × V → Result E' A × W
lift f g (ok a, v) = (ok a, g v)
lift f g (err x, v) = (err (f x), g v)

unfoldable pub lift_error : {E E' V W : Type 0} → (E → E') → (V → W) → Option E × V → Option E' × W
lift_error f g (none, v) = (none, g v)
lift_error f g (some x, v) = (some (f x), g v)

pub lift-ok :
    {E E' A V W : Type 0} (f : E → E') (g : V → W) (r : Result E A × V) (a : A)
    → (lift f g r).0 ≡ ok a
    → r.0 ≡ ok a
unfolding lift
lift-ok f g (ok b, v) a h = cc (h)
lift-ok f g (err x, v) a h = cc (h)
