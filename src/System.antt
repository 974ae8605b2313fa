-- ===== src/System.antt =====
-- The life of one Wish on the API server while the web server's replicas, the reconciler and the
-- wish's owner work on it at the same time, each with its own, possibly stale, copy.
-- The API server is third-party code. What is used of it is its documented optimistic concurrency: a
-- status update is accepted only if its resource version is the stored one, it replaces the status,
-- and the stored version changes.
pub mod Oversell
pub mod Safe
use wish_operator.Common.{ℕ, suc, ◌<◌, ◌≡◌, ◌≢◌, Bool, false, IsInt32, List, [], ◌∷◌, Str}
use mathlib.Core.List.{Memᴰ}
use wish_operator.Wish.{Time, WishSpec, WishStatus, Wish, is_unlimited}
use wish_operator.Controller.{Readings, Pass, reconcile_pass}
use wish_operator.Http.{Request}
use wish_operator.Web.Reserve.{
  Checked, pass, Asked, parse_reserve, check_available, add_reservation,
}

-- The stored object, every state of it that a reader may still see (a cached read can be old), and the
-- status updates that were computed and not yet sent. The wish holds its resource version.
pub record Cluster : Type 0 where
  pub current : Wish
  pub seen : List Wish
  pub pending : List Wish

-- The object after an accepted update or edit: another version, and the new state can be read.
abbrev pub stored : Cluster → Wish → Cluster
stored c w =
    let v = record w { resource_version = suc c.current.resource_version } in
    record c { current = v; seen = v ∷ c.seen }

abbrev pub with_pending : Cluster → Wish → Cluster
with_pending c w = record c { pending = w ∷ c.pending }

-- `handleReserve` up to the update on a copy, `Reconcile` up to the update on a copy, an update that is
-- accepted, one that is refused as a conflict, and an edit of the spec by the owner: any spec with an
-- int32 as its quantity that does not make the wish unlimited, also one below what is reserved.
infix 40 ◌⟶◌ ◌⟶*◌
pub data ◌⟶◌ : Cluster → Cluster → Type 0 where
  reserve :
      {c : Cluster} (w : Wish) (lang : Str) (r : Request) (name : Str) (now : Time) (a : Asked)
      → Memᴰ w c.seen
      → parse_reserve lang r name ≡ pass a
      → check_available lang w a.quantity ≡ pass tt
      → c ⟶ with_pending c (add_reservation now a w)
  reconcile :
      {c : Cluster} (w : Wish) (r : Readings)
      → Memᴰ w c.seen
      → c ⟶ with_pending c (reconcile_pass r w).wish
  commit :
      {c : Cluster} (w : Wish)
      → Memᴰ w c.pending
      → w.resource_version ≡ c.current.resource_version
      → c ⟶ stored c (record (c.current) { status = w.status })
  conflict :
      {c : Cluster} (w : Wish)
      → Memᴰ w c.pending
      → w.resource_version ≢ c.current.resource_version
      → c ⟶ c
  edit :
      {c : Cluster} (spec : WishSpec)
      → IsInt32 spec.quantity
      → is_unlimited (record (c.current) { spec = spec }) ≡ false
      → c ⟶ stored c (record (c.current) { spec = spec })

pub data ◌⟶*◌ (c : Cluster) : Cluster → Type 0 where
  here : c ⟶* c
  next : {d e : Cluster} → c ⟶* d → d ⟶ e → c ⟶* e

-- A wish as it was created, with no reader and no update under way.
abbrev pub created : Wish → Cluster
created w = record { current = w; seen = w ∷ []; pending = [] }
