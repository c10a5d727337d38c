-- ===== src/Cards.antt =====
-- core/card_rules.c: the card catalog and the rules that a match is played by. The file is checked
-- in as C; a function of it keeps its name here, and an `int` of it is an integer.
pub mod Choose
pub mod Digits
pub mod Cost
pub mod Power
pub mod EffectA
pub mod EffectB
pub mod Catalog
pub mod Rules
pub mod Effects
pub mod Nonneg
pub mod Kinds
pub mod Triangle
mod Tests
