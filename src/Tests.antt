-- ===== src/Tests.antt =====
-- The theorems at concrete inputs, by the part of the program that they are about.
mod Simulator
mod Demo
mod Client
mod Pages
mod Backend
mod Auth
mod Api
mod Stored
