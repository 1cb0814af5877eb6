-- ===== src/XPool.antt =====
-- pkgs/xpool: a pool of values with a function that makes new ones. `sync.Pool` may drop what rests
-- in it, and gives back any of it.
use net_hive.Prelude.{List, [], ◌∷◌}

-- `Pool`, with the values at rest.
pub record Pool (A : Type 0) : Type 0 where
  pub make : A
  pub rest : List A

-- `New`
abbrev pub new : {A : Type 0} → A → Pool A
new a = record { make = a; rest = [] }

-- What `Get` gives, and what then rests.
abbrev pub get_or : {A : Type 0} → A → List A → A × List A
get_or a [] = (a, [])
get_or a (x ∷ xs) = (x, xs)

-- `Get`
abbrev pub get : {A : Type 0} → Pool A → A × Pool A
get p = let (x, xs) = get_or p.make p.rest in (x, record p { rest = xs })

-- `Put`
abbrev pub put : {A : Type 0} → A → Pool A → Pool A
put x p = record p { rest = x ∷ p.rest }
