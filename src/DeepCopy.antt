-- ===== src/DeepCopy.antt =====
-- api/v1alpha1/zz_generated.deepcopy.go: the deep copies of Wish, of its parts and of WishList.
-- Here a wish is what Go has in memory: its slices and pointers are addresses, or nil, of cells. A
-- copy allocates a cell for each of them, which `copy_ref` does for one. The copies of metav1 values
-- and of the object metadata belong to apimachinery; they copy values. `Condition` is its type.
pub mod Refs
pub mod Independence
pub mod Items
use wish_operator.Common.{
  ℕ, suc, ◌==◌, Bool, true, false, Option, some, none, List, [], ◌∷◌, ◌++◌, map, ℤ, Str,
  if◌then◌else◌,
}
use wish_operator.Wish.{Time, Duration, Reservation}

-- `None` is nil.
abbrev pub Ref : Type 0
Ref = Option ℕ

pub record SpecRef : Type 0 where
  pub title : Str
  pub image_url : Str
  pub official_url : Str
  pub purchase_urls : Ref
  pub msrp : Str
  pub tags : Ref
  pub context_tags : Ref
  pub description : Str
  pub priority : ℤ
  pub ttl : Ref
  pub quantity : ℤ

pub record StatusRef : Type 0 where
  pub reservations : Ref
  pub active : Bool
  pub conditions : Ref
  pub reserved : Bool
  pub reserved_at : Ref
  pub reservation_expires : Ref

pub record WishRef : Type 0 where
  pub namespace : Str
  pub name : Str
  pub resource_version : ℕ
  pub creation_timestamp : Time
  pub spec : SpecRef
  pub status : StatusRef

-- `Reservation.DeepCopyInto`
unfoldable pub deep_copy_reservation : Reservation → Reservation
deep_copy_reservation r = record {
  quantity = r.quantity;
  created_at = r.created_at;
  expires_at = r.expires_at;
}

module _ (Condition : Type 0) where
  -- What an address holds: the array of a slice, or the value that a pointer points to.
  pub data Cell : Type 0 where
    texts : List Str → Cell
    reservations : List Reservation → Cell
    conditions : List Condition → Cell
    duration : Duration → Cell
    time : Time → Cell
    wishes : List WishRef → Cell
    unused : Cell

  -- The cells and the next free address.
  pub record Memory : Type 0 where
    pub cell : ℕ → Cell
    pub next : ℕ

  abbrev pub write : Memory → ℕ → Cell → Memory
  write m p c = record m { cell = λ q. if p == q then c else m.cell q }

  -- `new` or `make`, filled with a content.
  abbrev pub alloc : Memory → Cell → Memory × ℕ
  alloc m c = (record { cell = (write m m.next c).cell; next = suc m.next }, m.next)

  -- The content of the copy of a cell. No field of a wish refers to an array of wishes.
  copy_cell : Cell → Cell
  unfolding deep_copy_reservation
  copy_cell (texts ts) = texts ts
  copy_cell (reservations rs) = reservations (map deep_copy_reservation rs)
  copy_cell (conditions cs) = conditions cs
  copy_cell (duration d) = duration d
  copy_cell (time t) = time t
  copy_cell (wishes ws) = wishes ws
  copy_cell unused = unused

  -- `if in.F != nil { *out = make(…); copy(*out, *in) }`, and the same with `new`.
  unfoldable pub copy_ref : Memory → Ref → Memory × Ref
  unfolding copy_cell
  copy_ref m none = (m, none)
  copy_ref m (some p) = let (m', q) = alloc m (copy_cell (m.cell p)) in (m', some q)

  unfoldable pub deep_copy_spec : Memory → SpecRef → Memory × SpecRef
  unfolding copy_ref
  deep_copy_spec m s =
      let (m₁, purchase_urls) = copy_ref m s.purchase_urls in
      let (m₂, tags) = copy_ref m₁ s.tags in
      let (m₃, context_tags) = copy_ref m₂ s.context_tags in
      let (m₄, ttl) = copy_ref m₃ s.ttl in
      (
        m₄,
        record s {
          purchase_urls = purchase_urls;
          tags = tags;
          context_tags = context_tags;
          ttl = ttl;
        },
      )

  unfoldable pub deep_copy_status : Memory → StatusRef → Memory × StatusRef
  unfolding copy_ref
  deep_copy_status m s =
      let (m₁, held) = copy_ref m s.reservations in
      let (m₂, conds) = copy_ref m₁ s.conditions in
      let (m₃, reserved_at) = copy_ref m₂ s.reserved_at in
      let (m₄, reservation_expires) = copy_ref m₃ s.reservation_expires in
      (
        m₄,
        record s {
          reservations = held;
          conditions = conds;
          reserved_at = reserved_at;
          reservation_expires = reservation_expires;
        },
      )

  unfoldable pub deep_copy_wish : Memory → WishRef → Memory × WishRef
  unfolding deep_copy_spec deep_copy_status
  deep_copy_wish m w =
      let (m₁, spec) = deep_copy_spec m w.spec in
      let (m₂, status) = deep_copy_status m₁ w.status in
      (m₂, record w { spec = spec; status = status })

  -- The loop over the items of a list.
  unfoldable pub deep_copy_items : Memory → List WishRef → Memory × List WishRef
  unfolding deep_copy_wish
  deep_copy_items m [] = (m, [])
  deep_copy_items m (w ∷ ws) =
      let (m₁, v) = deep_copy_wish m w in let (m₂, vs) = deep_copy_items m₁ ws in (m₂, v ∷ vs)

  unfoldable pub items_of : Cell → List WishRef
  items_of (wishes ws) = ws
  items_of _ = []

  -- `WishList.DeepCopyInto`, for its items: a new array first, then the items one by one.
  unfoldable pub deep_copy_list : Memory → Ref → Memory × Ref
  unfolding items_of
  deep_copy_list m none = (m, none)
  deep_copy_list m (some p) =
      let (m₁, q) = alloc m unused in
      let (m₂, ws) = deep_copy_items m₁ (items_of (m.cell p)) in (write m₂ q (wishes ws), some q)

  -- `DeepCopy`: nil for nil, and a copy otherwise.
  unfoldable pub deep_copy : Memory → Option WishRef → Memory × Option WishRef
  deep_copy m none = (m, none)
  deep_copy m (some w) = let (m', v) = deep_copy_wish m w in (m', some v)
