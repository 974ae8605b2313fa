-- ===== src/Tests/OfDeepCopy.antt =====
-- Tests of the deep copies.
use mathlib.Core.List.{Memᴰ}
use wish_operator.Common.{
  ℕ, zero, suc, ◌≡◌, ◌↔◌, if◌then◌else◌, ◌==◌, refl, arith, true, false, none, some, [], ◌∷◌, pos,
  Str, str,
}
use wish_operator.DeepCopy.{
  Ref, WishRef, Cell, texts, unused, duration, Memory, deep_copy_wish, wishes, items_of,
  deep_copy_list,
}
use wish_operator.DeepCopy.Refs.{Extends}
use wish_operator.DeepCopy.Items.{values, items_at, AllWithin, deep_copy_list-values}
use wish_operator.DeepCopy.Independence.{
  IsAllocated, value_of, write_all, deep_copy_wish-independent,
}

-- A wish with tags at address 0 and a TTL at 1.
abbrev tagged : WishRef
tagged =
    let w : WishRef = record {
      namespace = str "default";
      name = str "tea";
      resource_version = 1;
      creation_timestamp = pos 0;
      spec = record {
        title = str "Tea";
        image_url = [];
        official_url = [];
        purchase_urls = none;
        msrp = [];
        tags = some 0;
        context_tags = none;
        description = [];
        priority = pos 3;
        ttl = some 1;
        quantity = pos 1;
      };
      status = record {
        reservations = none;
        active = true;
        conditions = none;
        reserved = false;
        reserved_at = none;
        reservation_expires = none;
      };
    } in
    w

cells : ℕ → Cell Str
cells zero = texts (str "kitchen" ∷ [])
cells (suc zero) = duration (pos 1000)
cells (suc (suc n)) = unused

abbrev memory : Memory Str
memory = record { cell = cells; next = 2 }

deep_copy_wish-independent_example :
    let (m', v) = deep_copy_wish Str memory tagged in
    (value_of Str m' v ≡ value_of Str memory tagged)
    × (value_of Str (write_all Str m' ((0, texts []) ∷ [])) v ≡ value_of Str memory tagged)
    × (value_of Str (write_all Str m' ((2, texts []) ∷ (3, unused) ∷ [])) tagged
        ≡ value_of Str memory tagged)
unfolding deep_copy_wish
deep_copy_wish-independent_example =
    deep_copy_wish-independent Str memory tagged ((0, texts []) ∷ [])
      ((2, texts []) ∷ (3, unused) ∷ [])
      (tt, (omega arith, (tt, (omega arith, (tt, (tt, (tt, (tt, tt))))))))
      (Memᴰ.tail (Memᴰ.head refl), tt)
      (Memᴰ.tail (Memᴰ.head refl), (Memᴰ.tail (Memᴰ.tail (Memᴰ.tail (Memᴰ.head refl))), tt))

-- A list of two wishes that share their slices, at address 2.
abbrev list_memory : Memory Str
list_memory = record {
  cell = λ p. if p == 2 then wishes (tagged ∷ tagged ∷ []) else cells p;
  next = 3;
}

abbrev wish_slice : Ref
wish_slice = some 2

tagged-IsAllocated : IsAllocated Str list_memory tagged
tagged-IsAllocated = (tt, (omega arith, (tt, (omega arith, (tt, (tt, (tt, (tt, tt))))))))

deep_copy_list-values_example :
    let (m', copy) = deep_copy_list Str list_memory wish_slice in
    ((copy ≡ none) ↔ (wish_slice ≡ none))
    × (values Str m' (items_at Str m' copy) ≡ values Str list_memory (tagged ∷ tagged ∷ []))
    × AllWithin Str 3 m'.next (items_at Str m' copy)
    × Extends Str list_memory m'
unfolding items_of
deep_copy_list-values_example =
    deep_copy_list-values Str list_memory wish_slice (tagged-IsAllocated, (tagged-IsAllocated, tt))
