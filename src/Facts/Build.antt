-- ===== src/Facts/Build.antt =====
-- crates/zag-facts/src/build.rs: the builders of tables. A builder takes the tables and gives them
-- back changed, with what it returns; one that may panic gives `none` where it does.
pub mod Strings
pub mod Texts
pub mod Interned
pub mod Types
pub mod Rows
pub mod Flow
pub mod Declare
pub mod Steps
pub mod Columns
pub mod Ranges
pub mod Ranged
pub mod Ordered
use zag.Prelude.{ℕ, ◌+◌, Option, List, [], ◌∷◌, ◌++◌, as_u32, u32_sub}

-- `column.push(x)`.
abbrev pub push {ℓ} : {A : Type ℓ} → List A → A → List A
push xs x = xs ++ x ∷ []

-- `count as u32 - 1`, the handle of the row that was pushed last.
abbrev pub last_id : ℕ → ℕ
last_id count = u32_sub (as_u32 count) 1
