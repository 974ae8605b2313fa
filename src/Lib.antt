-- ===== src/Lib.antt =====
-- wish-operator: a Kubernetes operator for wishlists, and the web server that shows the wishes and takes
-- reservations.
--
-- The parts of the program and the modules that model them, paths from the repository's root:
-- - Wish (api/v1alpha1/wish_types.go): the Wish resource and its methods. IsUnlimited, GetQuantity,
--   TotalReserved, AvailableQuantity, IsFullyReserved, ActiveReservations, NextReservationExpiry,
--   IsExpired and IsReservationExpired are the functions of the same names in snake case.
-- - Controller (internal/controller/wish_controller.go): Reconcile is `reconcile`; what it does between
--   the Get and the Update is `reconcile_pass`, a chain of one function for each commented block.
-- - Web.Reserve (internal/web/server.go): handleReserve is `handle_reserve`, through `parse_reserve`,
--   `check_available` and `add_reservation`.
-- - Web.Listing and Web.Listing.Page (internal/web/server.go): listWishes is `list_wishes`, one round of
--   its loop `collect_wish`, its comparison `shown_before`; renderWishPage is `render_wish_page`.
-- - Web.Card and Web.CardForm (internal/templates/wish_card_templ.go, from wish_card.templ): WishCard is
--   `wish_card`, as the sequence of its writes, its form `reserve_block`. Web.CardForm.Fields reads
--   from these writes what a browser can post for the fields.
-- - Web.FilterBar and Web.IndexPage (internal/templates/index_templ.go, from index.templ): FilterBar is
--   `filter_bar`, Index is `index_page`. Web.Content (internal/templates/wish_list_templ.go, from
--   wish_list.templ): WishContent is `wish_content`. Web.Html has what the templates write.
-- - Url: how net/url and the routes read a link of these pages that a browser follows.
-- - Web.Limit (internal/web/server.go): getClientIP, getLimiter and rateLimitMiddleware.
-- - Web.Limit.Race (internal/web/server.go): getLimiter and Allow of requests that run at once, as steps
--   on a shared map of pointers to limiters; Web.Limit has them one request at a time, on the same map.
-- - Web.Server (internal/web/server.go): the routes and the middleware of Handler; Web.Server.Form and
--   Web.Server.Chips join the links of the pages with it.
-- - DeepCopy (api/v1alpha1/zz_generated.deepcopy.go): the DeepCopyInto functions on a memory of cells.
-- - Main and Main.Shutdown (cmd/main.go): the flags, the options and the calls of `main`, each with its
--   own check and exit, which succeed or fail as the environment says; webRunnable.Start as a step relation.
-- - Sorting: the contract of package sort, and insertion sort, which meets it.
-- - I18n and I18n.Messages (internal/i18n): DetectLanguage, T and Weeks are `detect_language`,
--   `translate` and `weeks`; the table is copied.
-- - Http, Numbers and Common.Strings: what these use of net/http, strconv, fmt and strings.
-- - System: the API server's copy of one wish under the web server, the reconciler and the owner, who
--   edits the spec to any int32 quantity but does not make the wish unlimited.
--
-- The web server and the reconciler meet in the status of a Wish: the server appends reservations, the
-- reconciler drops expired ones, migrates the legacy fields and sets Active. Both write through the
-- status update of the API server, which refuses an update that was made from an old version.
--
-- State is passed explicitly. The client of controller-runtime is a parameter, the record `Client`.
-- Readings of the clock are arguments, one for each call of time.Now in the order of the calls. An
-- int32 is an integer with its wrap-around written out (`wrap32`), a time the number of nanoseconds
-- from a fixed instant, a duration a number of nanoseconds with the int64 wrap-around (`wrap64`) or
-- the cut-off of time.Until (`clamp64`) where the code computes one. A text is the list of its code
-- points. Two definitions take fuel: `decimal`, the printing of a number, n + 1 divisions by ten for n,
-- which suffices since each division makes the number smaller, and the card's loop over the quantities,
-- one round more than there are quantities.
--
-- The limiters of golang.org/x/time/rate, net.SplitHostPort, the two sorts and url.QueryUnescape are
-- parameters as well; of the last, the links rely on its keeping unreserved characters.
-- The web server of net/http is the record `HttpServer`, with what Start relies on as its fields: its
-- steps leave the variables of Start alone, ListenAndServe never returns nil, returns ErrServerClosed
-- only after Shutdown was called, and can return it at once then.
-- The cards of a page read the clock twice each; the readings are a function of the card's position.
--
-- Not modelled: the parsing of the command line and the registration of types, the copies of
-- metav1 values and object metadata (apimachinery), the escaping and the buffer of the templates
-- (templ) with the returns of the templates on an error of a write, redirects of the ServeMux, and
-- logging. The card after a reservation is rendered from the wish that was sent in the update; the code
-- renders what the API server answered, with a new resource version, which the card does not show.
mod Common
pub mod Sorting
pub mod Wish
pub mod DeepCopy
pub mod Main
pub mod Numbers
pub mod Http
pub mod I18n
pub mod Client
pub mod Controller
pub mod Url
pub mod Web
pub mod System
mod Tests
