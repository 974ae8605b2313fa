-- ===== src/Tests.antt =====
-- Concrete inputs, runs of the definitions on them, and instances of the theorems.
mod Samples
mod OfWish
mod OfController
mod OfI18n
mod OfWeb
mod OfSystem
mod OfListing
mod OfServer
mod OfCard
mod OfLinks
mod OfPages
mod OfRace
mod OfDeepCopy
mod OfMain
