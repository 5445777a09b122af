-- ===== src/Tests.antt =====
-- Tests and instances of the theorems at concrete inputs.
mod World
mod Messages
mod Receipts
mod Groups
mod Devices
mod Contacts
mod Toy
mod Auth
mod SignIn
mod Delivery
mod Users
