-- ===== src/Client.antt =====
-- The Kubernetes client of controller-runtime, as far as the program calls it. It is third-party
-- code: the operations are parameters of the model.
use wish_operator.Common.{Bool, Option, List, Str}
use wish_operator.Wish.{Wish}

pub record ObjectKey : Type 0 where
  pub namespace : Str
  pub name : Str

-- What `Get` answers: the object, an error for which `IsNotFound` holds, or another error.
pub data Fetch : Type 0 where
  found : Wish → Fetch
  not_found : Fetch
  failed : Fetch

-- `list` answers `none` on an error; `update_status` returns the store and whether the error is nil.
pub record Client : Type 1 where
  pub Store : Type 0
  pub get : Store → ObjectKey → Fetch
  pub list : Store → Str → Option (List Wish)
  pub update_status : Store → Wish → Store × Bool
