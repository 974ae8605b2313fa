-- ===== src/Tests/Samples.antt =====
-- The wishes, requests and clients that the tests use.
use wish_operator.Common.{ℕ, Bool, true, false, none, some, List, [], ◌∷◌, ℤ, pos, str}
use wish_operator.Wish.{Reservation, WishSpec, WishStatus, Wish}
use wish_operator.Http.{Request}
use wish_operator.Client.{Client, found}
use wish_operator.Controller.{Readings}
use wish_operator.Web.Reserve.{Asked}

abbrev pub keyboard : ℤ → WishSpec
keyboard quantity = record {
  title = str "Mechanical Keyboard";
  image_url = [];
  official_url = str "https://example.com/keyboard";
  purchase_urls = str "https://example.org/keyboard" ∷ [];
  msrp = str "$150";
  tags = str "electronics" ∷ str "office" ∷ [];
  context_tags = str "birthday" ∷ [];
  description = str "Brown switches";
  priority = pos 4;
  ttl = some (pos 1000);
  quantity = quantity;
}

abbrev pub held : ℕ → ℕ → ℕ → Reservation
held quantity from to = record {
  quantity = pos quantity;
  created_at = pos from;
  expires_at = pos to;
}

abbrev pub status_of : List Reservation → WishStatus
status_of rs = record {
  reservations = rs;
  active = true;
  reserved = false;
  reserved_at = none;
  reservation_expires = none;
}

abbrev pub legacy_status : WishStatus
legacy_status = record {
  reservations = [];
  active = true;
  reserved = true;
  reserved_at = some (pos 100);
  reservation_expires = some (pos 600);
}

abbrev pub wish_of : ℤ → WishStatus → Wish
wish_of quantity status = record {
  namespace = str "default";
  name = str "keyboard";
  resource_version = 7;
  creation_timestamp = pos 0;
  spec = keyboard quantity;
  status = status;
}

-- Three items, of which two are reserved, one of them until time 500.
abbrev pub three_keyboards : Wish
three_keyboards = wish_of (pos 3) (status_of (held 1 100 500 ∷ held 1 200 800 ∷ []))

abbrev pub legacy_keyboard : Wish
legacy_keyboard = wish_of (pos 1) legacy_status

abbrev pub readings_at : ℕ → Readings
readings_at t = record { at_expiry = pos t; at_ttl = pos t; at_cleanup = pos t; at_requeue = pos t }

-- A form that asks for one item for two weeks.
abbrev pub reserve_request : Request
reserve_request = record {
  method = str "POST";
  path = str "wishes" ∷ str "keyboard" ∷ str "reserve" ∷ [];
  query = (str "lang", str "RU") ∷ [];
  header = (str "Accept-Language", str "fr, zh-CN;q=0.7") ∷ [];
  form = some ((str "weeks", str "2") ∷ (str "quantity", str "1") ∷ []);
  remote_addr = str "192.0.2.1:4711";
}

abbrev pub one_for_two_weeks : Asked
one_for_two_weeks = record { weeks = pos 2; quantity = pos 1 }

-- A server that holds one wish and accepts every update, or refuses every update.
abbrev pub one_wish : Bool → Client
one_wish accepts = record {
  Store = Wish;
  get = λ s key. found s;
  list = λ s namespace. some (s ∷ []);
  update_status = λ s w. (w, accepts);
}
