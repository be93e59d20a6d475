-- ===== src/Tests.antt =====
-- Runs of the definitions on concrete inputs, and the theorems applied there.
mod Messages
mod Utils
mod Routing
mod Bulb
mod Window
mod ManualInteraction
mod Hub
mod Timer
mod Fridge
mod Controller
mod Trees
mod Sessions
