-- ===== src/Tests.antt =====
-- The definitions run on small inputs, and the theorems at inputs that meet their hypotheses.
mod Memory
mod Terminal
mod Unpack
mod Inflate
mod Strings
mod Gunzip
mod Input
mod Opening
mod Shared
mod Cache
