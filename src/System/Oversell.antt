-- ===== src/System/Oversell.antt =====
-- What the interleaving of stale copies, conflicts and edits can do to the number of reserved items.
use wish_operator.Common.{
  suc, ◌≤◌, ◌≡◌, refl, ap, sym, List, [], ◌∷◌, arith, All, All-mem, pos, subst, ◌∙◌, ltb_ℤ,
  if◌then◌else◌, pos, ◌≤ℤ◌, inl, inr,
}
use wish_operator.Wish.{WishSpec, Wish, get_quantity}
use wish_operator.Controller.{with_status, reconcile_pass}
use wish_operator.Controller.Cleanup.{settled, reconcile_pass-settled}
use wish_operator.Web.Reserve.{add_reservation}
use wish_operator.Web.Reserve.Checks.{parse_reserve-IsAdmissible}
use wish_operator.System.{
  Cluster, stored, with_pending, ◌⟶◌, reserve, reconcile, commit, conflict, edit, ◌⟶*◌, here, next,
  created,
}
use wish_operator.System.Safe.{
  total, IsSafe, NoOversell, fits_copy, add-IsSafe, settled-NoOversell, settled-IsSafe,
  IsSafe-transfer,
}

-- A copy that can be read: safe, not newer than the object, and the object itself if it has its version.
record IsCopy (cur w : Wish) : Type 0 where
  copy_safe : IsSafe w
  not_newer : w.resource_version ≤ cur.resource_version
  same : w.resource_version ≡ cur.resource_version → w ≡ cur

-- An update under way: safe, and if it has the object's version, made from its spec and not overselling it.
record IsUpdate (cur w : Wish) : Type 0 where
  update_safe : IsSafe w
  from_past : w.resource_version ≤ cur.resource_version
  same_spec : w.resource_version ≡ cur.resource_version → w.spec ≡ cur.spec
  fits : w.resource_version ≡ cur.resource_version → NoOversell cur w

record Inv (c : Cluster) : Type 0 where
  safe : IsSafe c.current
  copies : All (IsCopy c.current) c.seen
  updates : All (IsUpdate c.current) c.pending

-- A write moves the version on, so no older copy and no update under way has it.
module _ (cur new : Wish) (moved : new.resource_version ≡ suc cur.resource_version) where
  copies-stored : (ws : List Wish) → All (IsCopy cur) ws → All (IsCopy new) ws
  copies-stored [] h = tt
  copies-stored (w ∷ ws) (k, h) = (
    record {
      copy_safe = k.copy_safe;
      not_newer = omega (arith, k.not_newer, moved);
      same = λ e. absurd (omega (arith, k.not_newer, moved, e));
    },
    copies-stored ws h,
  )

  updates-stored : (ws : List Wish) → All (IsUpdate cur) ws → All (IsUpdate new) ws
  updates-stored [] h = tt
  updates-stored (w ∷ ws) (k, h) = (
    record {
      update_safe = k.update_safe;
      from_past = omega (arith, k.from_past, moved);
      same_spec = λ e. absurd (omega (arith, k.from_past, moved, e));
      fits = λ e. absurd (omega (arith, k.from_past, moved, e));
    },
    updates-stored ws h,
  )

stored-Inv : (c : Cluster) (w : Wish) → Inv c → IsSafe w → Inv (stored c w)
stored-Inv c w inv ok =
    let v : Wish = record w { resource_version = suc c.current.resource_version } in
    let safe : IsSafe v = IsSafe-transfer v w refl refl ok in
    record {
      safe = safe;
      copies = (
        record { copy_safe = safe; not_newer = omega arith; same = λ _. refl },
        copies-stored c.current v refl c.seen inv.copies,
      );
      updates = updates-stored c.current v refl c.pending inv.updates;
    }

pending-Inv : (c : Cluster) (w : Wish) → Inv c → IsUpdate c.current w → Inv (with_pending c w)
pending-Inv c w inv k = record { safe = inv.safe; copies = inv.copies; updates = (k, inv.updates) }

-- An update made from a copy without touching its version and its spec.
IsUpdate-of_copy :
    {cur : Wish} (w v : Wish)
    → IsCopy cur w
    → v.resource_version ≡ w.resource_version
    → v.spec ≡ w.spec
    → IsSafe v
    → NoOversell w v
    → IsUpdate cur v
IsUpdate-of_copy {cur} w v k e f ok fits = record {
  update_safe = ok;
  from_past = omega (arith, k.not_newer, e);
  same_spec = λ now. f ∙ ap (λ (u : Wish). u.spec) (k.same (sym e ∙ now));
  fits = λ now. subst (λ u. NoOversell u v) (k.same (sym e ∙ now)) fits;
}

step-Inv : {c d : Cluster} → c ⟶ d → Inv c → Inv d
step-Inv (reserve {c} w lang r name now a read parsed fits) inv =
    let copy = All-mem (IsCopy c.current) c.seen inv.copies read in
    let (_, _, ok) = parse_reserve-IsAdmissible lang r name parsed in
    let room = fits_copy lang now a w copy.copy_safe ok fits in
    pending-Inv c (add_reservation now a w) inv (
      IsUpdate-of_copy w (add_reservation now a w) copy (unfold add_reservation in refl)
        (unfold add_reservation in refl) (add-IsSafe lang now a w copy.copy_safe ok fits)
        (inr (unfold add_reservation get_quantity in room)))
step-Inv (reconcile {c} w r read) inv =
    let copy = All-mem (IsCopy c.current) c.seen inv.copies read in
    let same = reconcile_pass-settled r w in
    pending-Inv c (reconcile_pass r w).wish inv (
      subst (IsUpdate c.current) (sym same) (
        IsUpdate-of_copy w (with_status w (settled r w)) copy refl refl
          (settled-IsSafe r w copy.copy_safe) (settled-NoOversell r w copy.copy_safe)))
step-Inv (commit {c} w sent current) inv =
    let k = All-mem (IsUpdate c.current) c.pending inv.updates sent in
    let v : Wish = record (c.current) { status = w.status } in
    let same = sym (ap (λ (s : WishSpec). s.quantity) (k.same_spec current)) in
    stored-Inv c v inv (IsSafe-transfer v w same refl k.update_safe)
step-Inv (conflict w sent stale) inv = inv
step-Inv (edit {c} spec ranged limited) inv =
    stored-Inv c (record (c.current) { spec = spec }) inv
      (record {
        in_range = ranged;
        limited = limited;
        positive = inv.safe.positive;
        total_range = inv.safe.total_range;
      })

created-Inv : (w : Wish) → IsSafe w → Inv (created w)
created-Inv w ok = record {
  safe = ok;
  copies = (record { copy_safe = ok; not_newer = omega arith; same = λ _. refl }, tt);
  updates = tt;
}

run-Inv : {c d : Cluster} → c ⟶* d → Inv c → Inv d
run-Inv here inv = inv
run-Inv (next run step) inv = step-Inv step (run-Inv run inv)

step-NoOversell : {c d : Cluster} → c ⟶ d → Inv c → NoOversell c.current d.current
unfolding get_quantity
step-NoOversell (reserve w lang r name now a read parsed fits) inv = inl (omega arith)
step-NoOversell (reconcile w r read) inv = inl (omega arith)
step-NoOversell (commit {c} w sent current) inv =
    let k = All-mem (IsUpdate c.current) c.pending inv.updates sent in
    let same = ap (λ (s : WishSpec). s.quantity) (k.same_spec current) in
    elim (k.fits current) [
      | inl less ↦ inl less
      | inr room ↦ inr (subst (λ n. total w ≤ℤ (if ltb_ℤ n (pos 0) then pos 1 else n)) same room)
    ]
step-NoOversell (conflict w sent stale) inv = inl (omega arith)
step-NoOversell (edit spec ranged limited) inv = inl (omega arith)

-- A limited wish starts with reservations of at least one item each and an int32 as their sum. Then,
-- whatever reservations, reconciliations, conflicts and edits by the owner interleave, each from a copy
-- that may be stale, every step leaves no more items in its list of reservations than before, or
-- no more than the quantity that the wish then has. An edit may set any int32 quantity, also one below
-- what is reserved, but not make the wish unlimited; a legacy reservation counts once it is migrated.
pub never_oversold :
    (w : Wish) {c d : Cluster} → IsSafe w → created w ⟶* c → c ⟶ d → NoOversell c.current d.current
never_oversold w ok run step = step-NoOversell step (run-Inv run (created-Inv w ok))
