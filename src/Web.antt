-- ===== src/Web.antt =====
-- internal/web/server.go: the web server.
pub mod Reserve
pub mod Listing
pub mod Limit
pub mod Server
pub mod Html
pub mod CardForm
pub mod Card
pub mod FilterBar
pub mod Content
pub mod IndexPage
